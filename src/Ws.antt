-- ===== src/Ws.antt =====
-- The WebSocket runtime: eazy_sdk/websocket/_decisions.py, policies.py, subscriptions.py and the
-- replay loop of _outbound.py; the client with its connection: _state.py, _connection.py,
-- _reconnect.py.
pub mod Policies
pub mod Replay
pub mod Decisions
pub mod Subscription
pub mod Examples
pub mod Client
