-- ===== src/Ws/Client/Connect.antt =====
-- eazy_sdk/websocket/_connection.py and _reconnect.py: `connect`, the restore of subscriptions and
-- `aclose`.
use eazy_sdk.Prelude.{
  ℕ, ◌+◌, Bool, true, false, none, some, String, [], get_elem?, if◌then◌else◌, str_eq,
}
use eazy_sdk.Dict.{remove, put}
use eazy_sdk.Ws.Policies.{ResubscribePolicy, recover_by_sequence, recover_by_token}
use eazy_sdk.Ws.Decisions.{
  connecting, handshaking, closing, closed, failed, start, connect_action, is_never,
}
use eazy_sdk.Ws.Subscription.{given, mark_restoring}
use eazy_sdk.Ws.Client.{Client, SubscriptionRecord, alter, allocate_correlation}
use eazy_sdk.Ws.Client.Table.{subscription_records}
use eazy_sdk.Ws.Client.Failure.{change_subscription, fail_outstanding, fail_subscriptions}

-- `_teardown_connection`, without the tasks and the socket.
unfoldable pub teardown : Client → Client
teardown c = record c { queue = none; active_write = none }

-- `aclose`, up to the call that closes the socket. While it waits for a cancelled reconnect the
-- session is closing, and the steps that other tasks then make count here as made before.
unfoldable pub begin_close : ℕ → Client → Client
unfolding fail_subscriptions subscription_records fail_outstanding
begin_close cause c = elim (c.session) [
  | closed ↦ c
  | _ ↦
      let out =
        fail_outstanding cause record c { session = closing; reconnect_scheduled = false } in
      fail_subscriptions (given cause) (subscription_records out) out
]

-- The rest of `aclose`.
unfoldable pub end_close : Client → Client
unfolding teardown
end_close c = record (teardown c) { session = closed }

-- `connect`, up to the call of the connector, where it is admitted; the end of the old tasks is no
-- step of its own.
unfoldable pub begin_connect : Client → Client
unfolding teardown connect_action
begin_connect c = elim (connect_action c.session) [
  | start ↦ record (teardown c) { session = connecting }
  | _ ↦ c
]

-- `connect`, from the socket to the start of the tasks.
unfoldable pub open_connection : Client → Client
open_connection c = record c {
  generation = c.generation + 1;
  queue = some [];
  session = handshaking;
}

-- `connect`, where the handshake raises; the end of the tasks is no step of its own.
unfoldable pub fail_handshake : ℕ → Client → Client
unfolding fail_outstanding teardown
fail_handshake cause c = record (teardown (fail_outstanding cause c)) { session = failed }

-- A new correlation for a record that is restored, in `_restore_subscriptions`.
unfoldable pub recorrelate_record : (ℕ → String) → ℕ → Client → Client
unfolding allocate_correlation remove put alter
recorrelate_record str i c = elim (get_elem? c.records i) [
  | none ↦ c
  | some r ↦ elim (r.correlation) [
    | none ↦ c
    | some old ↦
        let allocated = allocate_correlation str c in
        record allocated.1 {
          records =
              alter (λ (x : SubscriptionRecord). record x { correlation = some allocated.0 }) i
                c.records;
          by_correlation = put str_eq allocated.0 i (remove str_eq old c.by_correlation);
        }
  ]
]

abbrev pub recovers : ResubscribePolicy → Bool
recovers (recover_by_sequence name) = true
recovers (recover_by_token name) = true
recovers _ = false

-- `_restore_subscriptions` for one record, up to its middleware.
unfoldable pub restore_one : (ℕ → String) → ℕ → ℕ → Client → Client
unfolding recorrelate_record alter change_subscription
restore_one str generation i c = elim (get_elem? c.records i) [
  | none ↦ c
  | some r ↦
      if is_never r.subscription.resubscribe
      then c
      else let keyed = recorrelate_record str i c in
        record keyed {
          records =
              alter (change_subscription λ s. mark_restoring s generation (recovers s.resubscribe))
                i keyed.records;
        }
]
