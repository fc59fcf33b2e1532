-- ===== src/Ws/Client/Received.antt =====
-- What the reader does keeps the writes and the registries of a client.
use eazy_sdk.Prelude.{
  ℕ, ◌≡◌, inl, inr, refl, sym, none, some, Option, length, is_some, subst, Bool, true, false, arith,
  Bool-cases, Option-cases, if◌then◌else◌,
}
use eazy_sdk.Prelude.Outcome.{Outcome, ok, err, Outcome-cases}
use eazy_sdk.Ws.Decisions.{
  ProtocolMessage, ReaderRoute, pending_error, subscription_error, pending_reply,
  subscription_message, route_ready, route_pong, route_ping, subscription_complete, user_message,
  route_reader_message, is_reply, is_handshaking, write_admitted,
}
use eazy_sdk.Ws.Subscription.{Payload, given, complete, Subscription}
use eazy_sdk.Ws.Subscription.Publish.{publish}
use eazy_sdk.Ws.Client.{
  Client, WriteItem, EnqueueError, enqueue_item, SubscriptionRecord, PendingExchange, Reply,
  answered, refused, alter,
}
use eazy_sdk.Ws.Client.Table.{remove_subscription}
use eazy_sdk.Ws.Client.Failure.{change_subscription, fail_subscription}
use eazy_sdk.Ws.Client.Registry.{IsRegistered}
use eazy_sdk.Ws.Client.Dropped.{
  change-IsRegistered, remove_subscription-IsRegistered, fail_subscription-IsRegistered,
}
use eazy_sdk.Ws.Client.Routed.{same-IsRegistered, registries}
use eazy_sdk.Ws.Client.Delivered.{writes, Sound, SoundWrites}
use eazy_sdk.Ws.Client.Queued.{enqueue_item-Sound}
use eazy_sdk.Ws.Client.Broken.{remove_subscription-writes, fail_subscription-writes}
use eazy_sdk.Ws.Client.Reader.{
  Effect, Pong, plain, enveloped, pong_item, sent_pong, answer_ping, received, pending_of,
  correlation_record, channel_record, complete_record, registered, discard_pending, set_reply,
  follow, route_message, publish_subscription, complete_and_remove, is_unanswered,
}

-- The writes and the registries stay sound.
abbrev pub Keeps : Client → Client → Type 0
Keeps c out = (Sound c → Sound out) × (IsRegistered c → IsRegistered out)

same_writes : (c out : Client) → writes out ≡ writes c → Sound c → Sound out
same_writes c out e h = subst SoundWrites (sym e) h

-- To queue a frame leaves the registries alone.
pub enqueue_item-registries :
    (c : Client) (item : WriteItem) (allowed : Bool) (cause : ℕ)
    → registries c ≡ registries (enqueue_item c item allowed cause).0
unfolding enqueue_item
enqueue_item-registries c item allowed cause =
    elim (Bool-cases (write_admitted c.session allowed (is_some c.queue))) [
      | inr a ↦ ground (arith, a)
      | inl a ↦ elim (Option-cases c.queue) [
        | inl n ↦ ground (arith, a, n)
        | inr q ↦ ground (arith, a, q.1)
      ]
    ]

change-Keeps :
    (f : Subscription → Subscription) (i : ℕ) (c : Client)
    → Keeps c
        (remove_subscription i record c { records = alter (change_subscription f) i c.records })
change-Keeps f i c = (
  λ h.
      subst SoundWrites
        (sym (
          remove_subscription-writes i
            record c { records = alter (change_subscription f) i c.records }))
        h,
  λ h.
      remove_subscription-IsRegistered i
        (record c { records = alter (change_subscription f) i c.records })
        (change-IsRegistered f i c h),
)

publish_subscription-Keeps :
    (prepared : Outcome ℕ Payload) (r : ℕ × SubscriptionRecord) (generation : ℕ) (c : Client)
    → Keeps c (publish_subscription prepared r generation c)
unfolding publish_subscription
publish_subscription-Keeps (err e) r generation c = (
  λ h. subst SoundWrites (sym (fail_subscription-writes (given e) r.0 c)) h,
  λ h. fail_subscription-IsRegistered (given e) r.0 c h,
)
publish_subscription-Keeps (ok value) r generation c =
    let after = publish r.1.subscription value generation in
    let published : Client = record c {
      records =
          alter (change_subscription λ s. (publish r.1.subscription value generation).0) r.0
            c.records;
    } in
    elim (Bool-cases after.1) [
      | inl k ↦
          let same : published ≡ publish_subscription (ok value) r generation c =
            ground (arith, k) in
          subst (Keeps c) same (
            λ h. h,
            λ h. change-IsRegistered (λ s. (publish r.1.subscription value generation).0) r.0 c h,
          )
      | inr k ↦
          let same : remove_subscription r.0 published
              ≡ publish_subscription (ok value) r generation c =
            ground (arith, k) in
          subst (Keeps c) same
            (change-Keeps (λ s. (publish r.1.subscription value generation).0) r.0 c)
    ]

set_reply-Keeps :
    (outcome : Reply) (p : ℕ × PendingExchange) (c out : Client)
    → set_reply outcome p c ≡ ok out
    → Keeps c out
unfolding set_reply
set_reply-Keeps outcome p c out h = elim (Bool-cases (is_unanswered p.1.reply)) [
  | inr k ↦ absurd (ground (arith, h, k))
  | inl k ↦
      let after : Client = record c {
        exchanges = alter (λ (x : PendingExchange). record x { reply = outcome }) p.0 c.exchanges;
      } in
      let same : after ≡ out = ground (arith, h, k) in
      subst (Keeps c) same (λ h'. h', λ h'. same-IsRegistered c after refl h')
]

discard_pending-Keeps :
    (m : ProtocolMessage) (generation : ℕ) (c : Client) (discard : Bool)
    → Keeps c (discard_pending m generation c discard)
unfolding discard_pending
discard_pending-Keeps m generation c false = (λ h. h, λ h. h)
discard_pending-Keeps m generation c true = elim (Option-cases m.correlation) [
  | inl n ↦
      let same : c ≡ discard_pending m generation c true = ground (arith, n) in
      subst (Keeps c) same (λ h. h, λ h. h)
  | inr k ↦ (
    same_writes c (discard_pending m generation c true) (ground (arith, k.1)),
    λ h. same-IsRegistered c (discard_pending m generation c true) (ground (arith, k.1)) h,
  )
]

untouched : (c out : Client) → c ≡ out → Keeps c out
untouched c out e = subst (Keeps c) e (λ h. h, λ h. h)

enqueue_item-Keeps :
    (c : Client) (frame : ℕ) (allowed : Bool)
    → Keeps c (enqueue_item c (pong_item frame) allowed 0).0
enqueue_item-Keeps c frame allowed = (
  enqueue_item-Sound c (pong_item frame) allowed 0 refl,
  same-IsRegistered c (enqueue_item c (pong_item frame) allowed 0).0
      (enqueue_item-registries c (pong_item frame) allowed 0),
)

sent_pong-ok :
    (place : ℕ) (sent : Client × Option EnqueueError) (out : Client × Effect)
    → sent_pong place sent ≡ ok out
    → sent.0 ≡ out.0
unfolding sent_pong
sent_pong-ok place (c, none) out h = ground (arith, h)
sent_pong-ok place (c, some e) out h = absurd (ground (arith, h))

answer_ping-Keeps :
    (pong : Pong) (c : Client) (out : Client × Effect) → answer_ping pong c ≡ ok out → Keeps c out.0
unfolding answer_ping
answer_ping-Keeps (plain frame) c out h =
    let same : (enqueue_item c (pong_item frame) false 0).0 ≡ out.0 = ground (arith, h) in
    subst (Keeps c) same (enqueue_item-Keeps c frame false)
answer_ping-Keeps (enveloped (err e)) c out h = absurd (ground (arith, h))
answer_ping-Keeps (enveloped (ok frame)) c out h =
    let allowed = is_handshaking c.session in
    let same = sent_pong-ok (length c.items) (enqueue_item c (pong_item frame) allowed 0) out h in
    subst (Keeps c) same (enqueue_item-Keeps c frame allowed)

module _ (prepare : SubscriptionRecord → Outcome ℕ Payload) (pong : Pong) (identity : ℕ)
    (m : ProtocolMessage) (generation : ℕ) (c : Client) where
  follow-Keeps :
      (route : ReaderRoute) (after : Client) (out : Client × Effect)
      → follow prepare pong identity route m generation c after ≡ ok out
      → Keeps after out.0
  unfolding follow complete_and_remove
  follow-Keeps pending_error after out q = elim (Option-cases (pending_of m generation c)) [
    | inl n ↦ absurd (ground (arith, n, q))
    | inr p ↦ elim (Option-cases m.terminal_error) [
      | inl n ↦ absurd (ground (arith, p.1, n, q))
      | inr t ↦ elim (Outcome-cases (set_reply (refused t.0) p.0 after)) [
        | inr e ↦ absurd (ground (arith, p.1, t.1, e.1, q))
        | inl o ↦
            let same : o.0 ≡ out.0 = ground (arith, p.1, t.1, o.1, q) in
            subst (Keeps after) same (set_reply-Keeps (refused t.0) p.0 after o.0 o.1)
      ]
    ]
  ]
  follow-Keeps subscription_error after out q =
      elim (Option-cases (correlation_record m generation c)) [
        | inl n ↦ absurd (ground (arith, n, q))
        | inr r ↦ elim (Option-cases m.terminal_error) [
          | inl n ↦ absurd (ground (arith, r.1, n, q))
          | inr t ↦
              let same : fail_subscription (given t.0) r.0.0 after ≡ out.0 =
                ground (arith, r.1, t.1, q) in
              subst (Keeps after) same (
                λ h. subst SoundWrites (sym (fail_subscription-writes (given t.0) r.0.0 after)) h,
                λ h. fail_subscription-IsRegistered (given t.0) r.0.0 after h,
              )
        ]
      ]
  follow-Keeps pending_reply after out q = elim (Option-cases (pending_of m generation c)) [
    | inl n ↦ absurd (ground (arith, n, q))
    | inr p ↦ elim (Outcome-cases (set_reply (answered identity) p.0 after)) [
      | inr e ↦ absurd (ground (arith, p.1, e.1, q))
      | inl o ↦
          let same : o.0 ≡ out.0 = ground (arith, p.1, o.1, q) in
          subst (Keeps after) same (set_reply-Keeps (answered identity) p.0 after o.0 o.1)
    ]
  ]
  follow-Keeps subscription_message after out q =
      elim (Option-cases (
        if is_reply m.kind
        then correlation_record m generation c
        else channel_record m generation c)) [
          | inl n ↦ absurd (ground (arith, n, q))
          | inr r ↦
              let same : publish_subscription (prepare r.0.1) r.0 generation after ≡ out.0 =
                ground (arith, r.1, q) in
              subst (Keeps after) same
                (publish_subscription-Keeps (prepare r.0.1) r.0 generation after)
        ]
  follow-Keeps subscription_complete after out q =
      elim (Option-cases (complete_record m generation c)) [
        | inl n ↦ absurd (ground (arith, n, q))
        | inr r ↦
            let same : complete_and_remove r.0.0 after ≡ out.0 = ground (arith, r.1, q) in
            subst (Keeps after) same (change-Keeps complete r.0.0 after)
      ]
  follow-Keeps route_ready after out q = untouched after out.0 (ground (arith, q))
  follow-Keeps route_pong after out q = untouched after out.0 (ground (arith, q))
  follow-Keeps route_ping after out q = answer_ping-Keeps pong after out q
  follow-Keeps user_message after out q = untouched after out.0 (ground (arith, q))

  pub route_message-Keeps :
      (out : Client × Effect)
      → route_message prepare pong identity m generation c ≡ ok out
      → Keeps c out.0
  unfolding route_message
  route_message-Keeps out q =
      let decision = route_reader_message m (registered m generation c) in
      let first =
        discard_pending-Keeps m generation c
          (route_reader_message m (registered m generation c)).1 in
      let second =
        follow-Keeps (route_reader_message m (registered m generation c)).0
          (discard_pending m generation c (route_reader_message m (registered m generation c)).1)
          out q in
      (λ h. second.0 (first.0 h), λ h. second.1 (first.1 h))

  -- Whether the message is handled or not.
  pub received-Keeps : Keeps c (received prepare pong identity m generation c)
  unfolding received
  received-Keeps = elim (Outcome-cases (route_message prepare pong identity m generation c)) [
    | inl out ↦
        let same : out.0.0 ≡ received prepare pong identity m generation c =
          ground (arith, out.1) in
        subst (Keeps c) same (route_message-Keeps out.0 out.1)
    | inr e ↦
        let discard = (route_reader_message m (registered m generation c)).1 in
        let same : discard_pending m generation c discard
            ≡ received prepare pong identity m generation c =
          ground (arith, e.1) in
        subst (Keeps c) same (discard_pending-Keeps m generation c discard)
  ]
