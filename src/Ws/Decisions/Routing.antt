-- ===== src/Ws/Decisions/Routing.antt =====
-- Where the reader sends a message.
use eazy_sdk.Prelude.{◌≡◌, ◌⊎◌, ◌↔◌, false, true, some, is_some, arith}
use eazy_sdk.Ws.Decisions.{
  reply, event, control, control_ready, ping, pong, complete, ProtocolMessage, ReaderRoute,
  pending_error, subscription_error, pending_reply, subscription_message, route_ready, route_pong,
  route_ping, subscription_complete, user_message, Registered, route_reader_message,
}

-- What each route presupposes, so that the reader finds what it needs: an error or a reply for an
-- open exchange, or a subscription that is registered.
abbrev pub Presupposes : ProtocolMessage → Registered → ReaderRoute → Type 0
Presupposes m r pending_error = (r.pending_open ≡ true) × (is_some m.terminal_error ≡ true)
Presupposes m r subscription_error =
    (r.correlation_subscription ≡ true) × (is_some m.terminal_error ≡ true)
Presupposes m r pending_reply = (r.pending_open ≡ true) × (m.kind ≡ reply)
Presupposes m r subscription_message =
    ((m.kind ≡ reply) × (r.correlation_subscription ≡ true))
    ⊎ ((m.kind ≡ event) × (r.channel_subscription ≡ true))
Presupposes m r route_ready = (m.kind ≡ control) × (m.control ≡ some control_ready)
Presupposes m r route_pong = (m.kind ≡ control) × (m.control ≡ some pong)
Presupposes m r route_ping = (m.kind ≡ control) × (m.control ≡ some ping)
Presupposes m r subscription_complete =
    (m.control ≡ some complete) × (r.complete_subscription ≡ true)
Presupposes m r user_message = Unit

-- Every route that is chosen has what its handling presupposes.
pub route-Presupposes :
    (m : ProtocolMessage) (r : Registered) → Presupposes m r (route_reader_message m r).0
unfolding route_reader_message
route-Presupposes m r = ground arith

-- The reader ends an exchange exactly as follows: with the error of a message that names it, where
-- it is still open; with the message itself, where this is a reply that carries no error. It then
-- forgets the exchange. Only an exchange that is registered is open.
pub open_exchange_first :
    (m : ProtocolMessage) (r : Registered)
    → (r.pending_open ≡ true → r.pending_present ≡ true)
    → (((route_reader_message m r).0 ≡ pending_error) ↔ (
        (r.pending_open ≡ true)
        × (is_some m.terminal_error ≡ true)
        × (is_some m.correlation ≡ true)))
      × (((route_reader_message m r).0 ≡ pending_reply) ↔ (
          (r.pending_open ≡ true)
          × (is_some m.terminal_error ≡ false)
          × (m.kind ≡ reply)
          × (is_some m.correlation ≡ true)))
      × (((route_reader_message m r).0 ≡ pending_error)
            ⊎ ((route_reader_message m r).0 ≡ pending_reply)
          → (route_reader_message m r).1 ≡ true)
unfolding route_reader_message
open_exchange_first m r present = (
  ((λ e. ground arith), (λ h. ground arith)),
  ((λ e. ground arith), (λ h. ground arith)),
  (λ e. ground arith),
)
