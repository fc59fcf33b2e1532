-- ===== src/Ws/Decisions.antt =====
-- eazy_sdk/websocket/_decisions.py: the pure decisions of the WebSocket coordinator, and the
-- message kinds of eazy_sdk/protocols/core.py that they read. Texts, tokens and errors that are
-- only handed on are identities.
pub mod Routing
use eazy_sdk.Prelude.{
  ℕ, Bool, true, false, not, ◌&&◌, ◌||◌, Option, none, some, String, is_some, if◌then◌else◌,
}
use eazy_sdk.Ws.Policies.{
  ResubscribePolicy, never_resubscribe, resubscribe_from_start, recover_by_sequence,
  recover_by_token,
}

-- `WsSessionState`
pub data SessionState : Type 0 where
  idle connecting handshaking ready reconnecting closing closed failed : SessionState

pub data FailureState : Type 0 where
  to_failed to_reconnecting to_idle : FailureState

pub data ConnectAction : Type 0 where
  return_ready reject_closed start : ConnectAction

pub data ReconnectAction : Type 0 where
  halt retry : ReconnectAction

pub data DisconnectAction : Type 0 where
  fail_fatal fail_ended fail_disabled retain : DisconnectAction

unfoldable pub failure_state : Bool → Bool → FailureState
failure_state fatal reconnect =
    if fatal then to_failed else if reconnect then to_reconnecting else to_idle

unfoldable pub connect_action : SessionState → ConnectAction
connect_action ready = return_ready
connect_action closing = reject_closed
connect_action closed = reject_closed
connect_action _ = start

unfoldable pub reconnect_action : SessionState → ReconnectAction
reconnect_action closing = halt
reconnect_action closed = halt
reconnect_action ready = halt
reconnect_action _ = retry

abbrev is_ready : SessionState → Bool
is_ready ready = true
is_ready _ = false

abbrev pub is_handshaking : SessionState → Bool
is_handshaking handshaking = true
is_handshaking _ = false

unfoldable pub write_admitted : SessionState → Bool → Bool → Bool
write_admitted state allow_handshaking queue_present =
    (is_ready state || allow_handshaking && is_handshaking state) && queue_present

abbrev pub is_never : ResubscribePolicy → Bool
is_never never_resubscribe = true
is_never _ = false

unfoldable pub disconnect_action : ResubscribePolicy → Bool → Bool → DisconnectAction
disconnect_action policy fatal reconnect =
    if fatal
    then fail_fatal
    else if not reconnect
    then fail_ended
    else if is_never policy
    then fail_disabled
    else retain

pub data RecoveryMode : Type 0 where
  resubscribe recover : RecoveryMode

-- `unroutable`: the error "protocol recovery requires a channel-routed subscription".
pub record RecoveryDecision : Type 0 where
  pub mode : RecoveryMode
  pub token : Option ℕ
  pub unroutable : Bool

unfoldable pub recovery_decision : Bool → Option String → Option ℕ → RecoveryDecision
recovery_decision false channel token = record {
  mode = resubscribe;
  token = none;
  unroutable = false;
}
recovery_decision true none token = record { mode = recover; token = none; unroutable = true }
recovery_decision true (some channel) none = record {
  mode = resubscribe;
  token = none;
  unroutable = false;
}
recovery_decision true (some channel) (some token) = record {
  mode = recover;
  token = some token;
  unroutable = false;
}

pub data MessageKind : Type 0 where
  message reply event control : MessageKind

pub data ControlKind : Type 0 where
  control_ready ping pong close complete : ControlKind

-- `ProtocolMessage`, with the fields that routing reads.
pub record ProtocolMessage : Type 0 where
  pub kind : MessageKind
  pub correlation : Option String
  pub channel : Option String
  pub control : Option ControlKind
  pub terminal_error : Option ℕ

pub data ReaderRoute : Type 0 where
  pending_error subscription_error pending_reply subscription_message : ReaderRoute
  route_ready route_pong route_ping subscription_complete user_message : ReaderRoute

-- What the reader knows of the registries when a message comes in.
pub record Registered : Type 0 where
  pub pending_present : Bool
  pub pending_open : Bool
  pub correlation_subscription : Bool
  pub channel_subscription : Bool
  pub complete_subscription : Bool

abbrev pub is_reply : MessageKind → Bool
is_reply reply = true
is_reply _ = false

abbrev is_event : MessageKind → Bool
is_event event = true
is_event _ = false

unfoldable pub correlated_terminal : ProtocolMessage → Bool
correlated_terminal m = is_some m.terminal_error && is_some m.correlation

unfoldable pub correlated_reply : ProtocolMessage → Bool
correlated_reply m = is_reply m.kind && is_some m.correlation

-- The control kinds, once a message is of kind `control`.
unfoldable pub route_control : Option ControlKind → Bool → ReaderRoute
route_control (some control_ready) complete_subscription = route_ready
route_control (some pong) complete_subscription = route_pong
route_control (some ping) complete_subscription = route_ping
route_control (some complete) complete_subscription =
    if complete_subscription then subscription_complete else user_message
route_control _ complete_subscription = user_message

unfoldable pub route_uncorrelated : ProtocolMessage → Registered → ReaderRoute
unfolding route_control
route_uncorrelated m r =
    if is_event m.kind && is_some m.channel && r.channel_subscription
    then subscription_message
    else elim m.kind [
      | control ↦ route_control m.control r.complete_subscription
      | _ ↦ user_message
    ]

-- `route_reader_message`: the route, and whether the pending exchange is discarded.
unfoldable pub route_reader_message : ProtocolMessage → Registered → ReaderRoute × Bool
unfolding correlated_terminal correlated_reply route_uncorrelated
route_reader_message m r = (
  if correlated_terminal m && r.pending_open
      then pending_error
      else if correlated_terminal m && r.correlation_subscription
      then subscription_error
      else if correlated_reply m && r.pending_open
      then pending_reply
      else if correlated_reply m && r.correlation_subscription
      then subscription_message
      else route_uncorrelated m r,
  r.pending_present && (correlated_terminal m || correlated_reply m),
)
