-- ===== src/Ws/Client/Answered.antt =====
-- The reader finds what its route needs.
use eazy_sdk.Prelude.{
  ℕ, ◌≡◌, ◌⊎◌, inl, inr, refl, arith, some, none, subst, length, Option, Option-cases,
}
use eazy_sdk.Prelude.Outcome.{Outcome, ok, err, Outcome-cases}
use eazy_sdk.Ws.Decisions.{
  ProtocolMessage, ReaderRoute, pending_error, subscription_error, pending_reply,
  subscription_message, route_ready, route_pong, route_ping, subscription_complete, user_message,
  route_reader_message, control, ping, is_handshaking,
}
use eazy_sdk.Ws.Decisions.Routing.{Presupposes, route-Presupposes}
use eazy_sdk.Ws.Subscription.{Payload}
use eazy_sdk.Ws.Client.{Client, SubscriptionRecord, EnqueueError, enqueue_item}
use eazy_sdk.Ws.Client.Reader.{
  ReaderError, unprepared, unqueued, Pong, plain, enveloped, pong_item, sent_pong, answer_ping,
  assertion, invalid_state, Effect, pending_of, correlation_record, channel_record, complete_record,
  registered, discard_pending, set_reply, follow, route_message,
}

-- The exceptions of the answer to a ping.
abbrev pub Blames : Pong → Client → ReaderError → Type 0
Blames pong c assertion = ⊥
Blames pong c invalid_state = ⊥
Blames pong c (unprepared e) = pong ≡ enveloped (err e)
Blames pong c (unqueued e) =
    (frame : ℕ) × (pong ≡ enveloped (ok frame))
    × ((enqueue_item c (pong_item frame) (is_handshaking c.session) 0).1 ≡ some e)

sent_pong-inv :
    (place : ℕ) (out : Client × Option EnqueueError) (e : ReaderError)
    → sent_pong place out ≡ err e
    → (x : EnqueueError) × (out.1 ≡ some x) × (unqueued x ≡ e)
unfolding sent_pong
sent_pong-inv place (c, none) e h = absurd (ground (arith, h))
sent_pong-inv place (c, some x) e h = (x, refl, ground (arith, h))

answer_ping-Blames :
    (pong : Pong) (c : Client) (e : ReaderError) → answer_ping pong c ≡ err e → Blames pong c e
unfolding answer_ping
answer_ping-Blames (plain frame) c e h = absurd (ground (arith, h))
answer_ping-Blames (enveloped (err x)) c e h =
    let same : unprepared x ≡ e = ground (arith, h) in
    subst (Blames (enveloped (err x)) c) same refl
answer_ping-Blames (enveloped (ok frame)) c e h =
    let x =
      sent_pong-inv (length c.items) (enqueue_item c (pong_item frame) (is_handshaking c.session) 0)
        e h in
    subst (Blames (enveloped (ok frame)) c) x.2 (frame, refl, x.1)

module _ (prepare : SubscriptionRecord → Outcome ℕ Payload) (pong : Pong) (identity : ℕ)
    (m : ProtocolMessage) (generation : ℕ) (c : Client) where
  -- Of a route whose presuppositions hold no error comes but of the answer to a ping.
  follow-ok :
      (route : ReaderRoute) (after : Client) (e : ReaderError)
      → Presupposes m (registered m generation c) route
      → follow prepare pong identity route m generation c after ≡ err e
      → (m.kind ≡ control) × (m.control ≡ some ping) × Blames pong after e
  unfolding follow registered set_reply
  follow-ok pending_error after e h q = elim (Option-cases (pending_of m generation c)) [
    | inl n ↦ ground (arith, h.0, n)
    | inr p ↦ elim (Option-cases m.terminal_error) [
      | inl n ↦ ground (arith, h.1, n)
      | inr t ↦ ground (arith, h.0, p.1, t.1, q)
    ]
  ]
  follow-ok subscription_error after e h q =
      elim (Option-cases (correlation_record m generation c)) [
        | inl n ↦ ground (arith, h.0, n)
        | inr r ↦ elim (Option-cases m.terminal_error) [
          | inl n ↦ ground (arith, h.1, n)
          | inr t ↦ ground (arith, r.1, t.1, q)
        ]
      ]
  follow-ok pending_reply after e h q = elim (Option-cases (pending_of m generation c)) [
    | inl n ↦ ground (arith, h.0, n)
    | inr p ↦ ground (arith, h.0, p.1, q)
  ]
  follow-ok subscription_message after e h q = elim h [
    | inl k ↦ elim (Option-cases (correlation_record m generation c)) [
      | inl n ↦ ground (arith, k.1, n)
      | inr r ↦ ground (arith, k.0, r.1, q)
    ]
    | inr k ↦ elim (Option-cases (channel_record m generation c)) [
      | inl n ↦ ground (arith, k.1, n)
      | inr r ↦ ground (arith, k.0, r.1, q)
    ]
  ]
  follow-ok subscription_complete after e h q =
      elim (Option-cases (complete_record m generation c)) [
        | inl n ↦ ground (arith, h.1, n)
        | inr r ↦ ground (arith, r.1, q)
      ]
  follow-ok route_ready after e h q = ground (arith, q)
  follow-ok route_pong after e h q = ground (arith, q)
  follow-ok route_ping after e h q = (h.0, h.1, answer_ping-Blames pong after e q)
  follow-ok user_message after e h q = ground (arith, q)

  -- The reader handles every message, whatever the tables of the client hold, or it is a ping and
  -- its answer raises: because its frame cannot be made, or because it is no plain pong and cannot
  -- be queued. So no assertion of `_route_message` fails, and no reply is set that is set already.
  pub route_message-returns :
      ((out : Client × Effect) × (route_message prepare pong identity m generation c ≡ ok out))
      ⊎ ((e : ReaderError) × (route_message prepare pong identity m generation c ≡ err e)
          × (m.kind ≡ control)
          × (m.control ≡ some ping)
          × Blames pong
              (discard_pending m generation c
                (route_reader_message m (registered m generation c)).1)
              e)
  unfolding route_message
  route_message-returns =
      elim (Outcome-cases (route_message prepare pong identity m generation c)) [
        | inl out ↦ inl out
        | inr e ↦
            let (kind, ping', blamed) =
              follow-ok (route_reader_message m (registered m generation c)).0
                (discard_pending m generation c
                  (route_reader_message m (registered m generation c)).1)
                e.0 (route-Presupposes m (registered m generation c)) e.1 in
            inr (e.0, e.1, kind, ping', blamed)
      ]
