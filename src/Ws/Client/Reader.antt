-- ===== src/Ws/Client/Reader.antt =====
-- eazy_sdk/websocket/_connection.py: what the reader does with a message, `_route_message` and
-- `_publish_subscription`.
use eazy_sdk.Prelude.{
  ℕ, Bool, true, false, Option, none, some, List, get_elem?, length, str_eq, is_some, if◌then◌else◌,
}
use eazy_sdk.Prelude.Outcome.{Outcome, ok, err, ◌>>=◌, or_raise}
use eazy_sdk.Dict.{lookup, remove}
use eazy_sdk.Ws.Decisions.{
  ProtocolMessage, ReaderRoute, pending_error, subscription_error, pending_reply,
  subscription_message, route_ready, route_pong, route_ping, subscription_complete, user_message,
  Registered, route_reader_message, is_reply, is_handshaking,
}
use eazy_sdk.Ws.Subscription.{Payload, given, complete}
use eazy_sdk.Ws.Subscription.Publish.{publish}
use eazy_sdk.Ws.Client.{
  Client, WriteItem, EnqueueError, enqueue_item, unwritten, PendingExchange, SubscriptionRecord,
  Reply, unanswered, answered, refused, same_key, alter,
}
use eazy_sdk.Ws.Client.Table.{remove_subscription}
use eazy_sdk.Ws.Client.Failure.{fail_subscription, change_subscription}

-- An `assert` that fails, `InvalidStateError` of a future that is done, and what the answer to a
-- ping raises: making its frame, or queueing it.
pub data ReaderError : Type 0 where
  assertion invalid_state : ReaderError
  unprepared : ℕ → ReaderError
  unqueued : EnqueueError → ReaderError

-- The answer to a ping: `PongMessage(b"")`, as a frame, where `build_control` returns `None`, and
-- else the frame that `_prepare_envelope` makes of its envelope, or what one of the two raises.
pub data Pong : Type 0 where
  plain : ℕ → Pong
  enveloped : Outcome ℕ ℕ → Pong

-- What the reader does beside its changes of the client. `await_write` waits for the write of the
-- place, and raises what the write fails with.
pub data Effect : Type 0 where
  no_effect set_protocol_ready set_heartbeat_ack dispatch_user : Effect
  await_write : ℕ → Effect

-- The object at a place that a dictionary gives.
abbrev pub deref : {A : Type 0} → Option ℕ → List A → Option (ℕ × A)
deref none heap = none
deref (some i) heap = elim (get_elem? heap i) [ none ↦ none | some a ↦ some (i, a) ]

-- `get` with a key that may be `None`.
abbrev pub find_key : {K : Type 0} → (K → Option ℕ) → Option K → Option ℕ
find_key get none = none
find_key get (some key) = get key

abbrev pub is_unanswered : Reply → Bool
is_unanswered unanswered = true
is_unanswered _ = false

abbrev pub is_waiting : Option (ℕ × PendingExchange) → Bool
is_waiting none = false
is_waiting (some p) = is_unanswered p.1.reply

-- The objects that a message finds in the tables of a client.
module _ (m : ProtocolMessage) (generation : ℕ) (c : Client) where
  unfoldable pub pending_of : Option (ℕ × PendingExchange)
  unfolding lookup same_key
  pending_of =
      deref (find_key (λ k. lookup same_key (generation, k) c.pending) m.correlation) c.exchanges

  unfoldable pub correlation_record : Option (ℕ × SubscriptionRecord)
  unfolding lookup
  correlation_record =
      deref (find_key (λ k. lookup str_eq k c.by_correlation) m.correlation) c.records

  unfoldable pub channel_record : Option (ℕ × SubscriptionRecord)
  unfolding lookup
  channel_record = deref (find_key (λ k. lookup str_eq k c.by_channel) m.channel) c.records

  unfoldable pub complete_record : Option (ℕ × SubscriptionRecord)
  complete_record = if is_some m.channel then channel_record else correlation_record

  unfoldable pub registered : Registered
  registered = record {
    pending_present = is_some pending_of;
    pending_open = is_waiting pending_of;
    correlation_subscription = is_some correlation_record;
    channel_subscription = is_some channel_record;
    complete_subscription = is_some complete_record;
  }

  -- `self._pending.pop(key, None)` where the decision says so.
  unfoldable pub discard_pending : Bool → Client
  unfolding remove same_key
  discard_pending false = c
  discard_pending true = elim (m.correlation) [
    | none ↦ c
    | some k ↦ record c { pending = remove same_key (generation, k) c.pending }
  ]

-- `reply.set_result` and `reply.set_exception`
unfoldable pub set_reply : Reply → ℕ × PendingExchange → Client → Outcome ReaderError Client
unfolding alter
set_reply outcome p c =
    if is_unanswered p.1.reply
    then ok (record c {
      exchanges = alter (λ (x : PendingExchange). record x { reply = outcome }) p.0 c.exchanges;
    })
    else err invalid_state

-- `_publish_subscription`; `prepare` is what decryption, the middleware and the declared messages
-- make of a message: the value, or what they raise. Their awaits are no steps of their own.
unfoldable pub publish_subscription :
    Outcome ℕ Payload → ℕ × SubscriptionRecord → ℕ → Client → Client
unfolding fail_subscription alter change_subscription remove_subscription publish
publish_subscription (err e) r generation c = fail_subscription (given e) r.0 c
publish_subscription (ok value) r generation c =
    let out = publish r.1.subscription value generation in
    let published = record c { records = alter (change_subscription λ s. out.0) r.0 c.records } in
    if out.1 then published else remove_subscription r.0 published

-- `_complete()`, then `_remove_subscription(record)`
unfoldable pub complete_and_remove : ℕ → Client → Client
unfolding alter change_subscription remove_subscription complete
complete_and_remove i c =
    remove_subscription i record c { records = alter (change_subscription complete) i c.records }

abbrev pub pong_item : ℕ → WriteItem
pong_item frame = record { frame = frame; completion = unwritten; exchange = none; started = false }

-- `completion` is none of `_enqueue`, or its exception.
unfoldable pub sent_pong : ℕ → Client × Option EnqueueError → Outcome ReaderError (Client × Effect)
sent_pong place (c, none) = ok (c, await_write place)
sent_pong place (c, some e) = err (unqueued e)

-- The branch on `ReaderRoute.PING`: `_enqueue_control` drops a pong that cannot be queued, and
-- `_send_protocol_envelope` raises. The await of `_prepare_envelope` is no step of its own.
unfoldable pub answer_ping : Pong → Client → Outcome ReaderError (Client × Effect)
unfolding enqueue_item sent_pong
answer_ping (plain frame) c = ok ((enqueue_item c (pong_item frame) false 0).0, no_effect)
answer_ping (enveloped (err e)) c = err (unprepared e)
answer_ping (enveloped (ok frame)) c =
    sent_pong (length c.items) (enqueue_item c (pong_item frame) (is_handshaking c.session) 0)

module _ (prepare : SubscriptionRecord → Outcome ℕ Payload) (pong : Pong) (identity : ℕ) where
  -- The handling of a route, in a client from which the exchange may be discarded; `before` is the
  -- client that the message came to.
  unfoldable pub follow :
      ReaderRoute → ProtocolMessage → ℕ → Client → Client → Outcome ReaderError (Client × Effect)
  unfolding set_reply publish_subscription complete_and_remove fail_subscription pending_of
      correlation_record channel_record complete_record answer_ping
  follow pending_error m generation before c =
      or_raise (pending_of m generation before) assertion >>= λ p.
      or_raise m.terminal_error assertion >>= λ e.
      set_reply (refused e) p c >>= λ out. ok (out, no_effect)
  follow subscription_error m generation before c =
      or_raise (correlation_record m generation before) assertion >>= λ r.
      or_raise m.terminal_error assertion >>= λ e. ok (fail_subscription (given e) r.0 c, no_effect)
  follow pending_reply m generation before c =
      or_raise (pending_of m generation before) assertion >>= λ p.
      set_reply (answered identity) p c >>= λ out. ok (out, no_effect)
  follow subscription_message m generation before c =
      or_raise
        (if is_reply m.kind
          then correlation_record m generation before
          else channel_record m generation before)
        assertion
      >>= λ r. ok (publish_subscription (prepare r.1) r generation c, no_effect)
  follow subscription_complete m generation before c =
      or_raise (complete_record m generation before) assertion >>= λ r.
      ok (complete_and_remove r.0 c, no_effect)
  follow route_ready m generation before c = ok (c, set_protocol_ready)
  follow route_pong m generation before c = ok (c, set_heartbeat_ack)
  follow route_ping m generation before c = answer_ping pong c
  follow user_message m generation before c = ok (c, dispatch_user)

  -- `_route_message`
  unfoldable pub route_message :
      ProtocolMessage → ℕ → Client → Outcome ReaderError (Client × Effect)
  unfolding follow route_reader_message registered discard_pending
  route_message m generation c =
      let decision = route_reader_message m (registered m generation c) in
      follow decision.0 m generation c (discard_pending m generation c decision.1)

  -- What `_route_message` leaves of the client: an exception comes after the exchange is discarded.
  unfoldable pub received : ProtocolMessage → ℕ → Client → Client
  unfolding route_message route_reader_message registered discard_pending
  received m generation c = elim (route_message m generation c) [
    | ok out ↦ out.0
    | err e ↦ discard_pending m generation c (route_reader_message m (registered m generation c)).1
  ]
