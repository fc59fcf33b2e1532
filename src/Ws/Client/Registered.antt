-- ===== src/Ws/Client/Registered.antt =====
-- The registries of a client after a step.
use eazy_sdk.Prelude.{
  ℕ, ◌≡◌, refl, sym, subst, true, false, some, String, List, [], ◌∷◌, get_elem?, inl, inr, arith,
  Bool-cases, Option-cases,
}
use eazy_sdk.Ws.Decisions.{is_handshaking, connect_action, failed}
use eazy_sdk.Ws.Subscription.{given}
use eazy_sdk.Ws.Client.{
  Client, Completion, unwritten, written, write_failed, settle_active, finish_write, register_call,
  finish_call, start_write,
}
use eazy_sdk.Ws.Client.Table.{subscription_records}
use eazy_sdk.Ws.Client.Failure.{
  fail_outstanding, fail_connection, give_up, break_write, delivery_failure,
}
use eazy_sdk.Ws.Client.Connect.{
  begin_close, end_close, begin_connect, open_connection, fail_handshake, teardown,
}
use eazy_sdk.Ws.Client.Lifecycle.{begin_close-open, closing_client, is_closed, is_start}
use eazy_sdk.Ws.Client.Registry.{IsRegistered}
use eazy_sdk.Ws.Client.Routed.{registries, same-IsRegistered, fail_connection-IsRegistered}
use eazy_sdk.Ws.Client.Subscribed.{register_subscription-IsRegistered, restore_one-IsRegistered}
use eazy_sdk.Ws.Client.Dropped.{
  change-IsRegistered, remove_subscription-IsRegistered, fail_subscriptions-IsRegistered,
}
use eazy_sdk.Ws.Client.Received.{received-Keeps, enqueue_item-registries}
use eazy_sdk.Ws.Client.Steps.{
  receive, Step, enqueue, take_write, end_write, fail_write_at, cancel_write, call, end_call,
  subscribe, unsubscribe, update, start_connect, opened, handshake_done, handshake_failed,
  connect_failed, connection_failed, restore, reconnect_exhausted, start_close, closed_socket, step,
  is_failed,
}

-- The steps that write frames and end connections leave the registries alone.
first_write :
    (c : Client) (queue : List ℕ) → c.queue ≡ some queue → registries c ≡ registries (start_write c)
unfolding start_write
first_write c [] q = ground (arith, q)
first_write c (i ∷ queue) q = elim (Option-cases (get_elem? c.items i)) [
  | inl n ↦ ground (arith, q, n)
  | inr item ↦ ground (arith, q, item.1)
]

start_write-registries : (c : Client) → registries c ≡ registries (start_write c)
unfolding start_write
start_write-registries c = elim (Option-cases c.queue) [
  | inl n ↦ ground (arith, n)
  | inr q ↦ first_write c q.0 q.1
]

settle_active-registries :
    (outcome : Completion) (c : Client) → registries c ≡ registries (settle_active outcome c)
unfolding settle_active
settle_active-registries outcome c = elim (Option-cases c.active_write) [
  | inl n ↦ ground (arith, n)
  | inr i ↦ ground (arith, i.1)
]

begin_connect-registries : (c : Client) → registries c ≡ registries (begin_connect c)
unfolding begin_connect teardown
begin_connect-registries c = elim (Bool-cases (is_start (connect_action c.session))) [
  | inl k ↦ ground (arith, k)
  | inr k ↦ ground (arith, k)
]

begin_close-IsRegistered :
    (cause : ℕ) (c : Client) → IsRegistered c → IsRegistered (begin_close cause c)
unfolding begin_close fail_outstanding
begin_close-IsRegistered cause c h = elim (Bool-cases (is_closed c.session)) [
  | inl k ↦ same-IsRegistered c (begin_close cause c) (ground (arith, k)) h
  | inr k ↦ subst IsRegistered (sym (begin_close-open cause c k)) (
      fail_subscriptions-IsRegistered (given cause) (subscription_records (closing_client cause c))
        (closing_client cause c) (same-IsRegistered c (closing_client cause c) refl h))
]

give_up-IsRegistered : (cause : ℕ) (c : Client) → IsRegistered c → IsRegistered (give_up cause c)
unfolding give_up
give_up-IsRegistered cause c h =
    fail_subscriptions-IsRegistered (given cause) (subscription_records c)
      (record c { session = failed; reconnect_scheduled = false })
      (same-IsRegistered c (record c { session = failed; reconnect_scheduled = false }) refl h)

pub step-IsRegistered :
    (str : ℕ → String) (s : Step) (c : Client) → IsRegistered c → IsRegistered (step str s c)
unfolding step finish_write register_call finish_call give_up fail_handshake end_close
    open_connection break_write fail_outstanding teardown
step-IsRegistered str (enqueue frame exchange allowed) c h =
    same-IsRegistered c (step str (enqueue frame exchange allowed) c)
      (enqueue_item-registries c
        record { frame = frame; completion = unwritten; exchange = exchange; started = false }
        allowed 0)
      h
step-IsRegistered str take_write c h =
    same-IsRegistered c (step str take_write c)
      (elim (Option-cases c.active_write) [
        | inl n ↦ ground (arith, n, start_write-registries c)
        | inr i ↦ ground (arith, i.1)
      ])
      h
step-IsRegistered str end_write c h =
    same-IsRegistered c (step str end_write c) (settle_active-registries written c) h
step-IsRegistered str (fail_write_at cause generation) c h =
    same-IsRegistered
      (fail_connection cause generation false true
        (settle_active (write_failed (delivery_failure cause true)) c))
      (step str (fail_write_at cause generation) c) refl
      (fail_connection-IsRegistered cause false true generation
        (settle_active (write_failed (delivery_failure cause true)) c)
        (same-IsRegistered c (settle_active (write_failed (delivery_failure cause true)) c)
          (settle_active-registries (write_failed (delivery_failure cause true)) c) h))
step-IsRegistered str (cancel_write i) c h =
    same-IsRegistered c (step str (cancel_write i) c) refl h
step-IsRegistered str call c h = same-IsRegistered c (step str call c) refl h
step-IsRegistered str (end_call key i) c h =
    same-IsRegistered c (step str (end_call key i) c) refl h
step-IsRegistered str (subscribe subscription channel) c h =
    register_subscription-IsRegistered str subscription channel c h
step-IsRegistered str (unsubscribe i) c h = remove_subscription-IsRegistered i c h
step-IsRegistered str (update f i) c h = change-IsRegistered f i c h
step-IsRegistered str start_connect c h =
    same-IsRegistered c (step str start_connect c)
      (elim (Bool-cases (is_handshaking c.session)) [
        | inl k ↦ ground (arith, k)
        | inr k ↦ ground (arith, k, begin_connect-registries c)
      ])
      h
step-IsRegistered str opened c h = same-IsRegistered c (step str opened c) (ground arith) h
step-IsRegistered str connect_failed c h =
    same-IsRegistered c (step str connect_failed c) (ground arith) h
step-IsRegistered str handshake_done c h = same-IsRegistered c (step str handshake_done c) refl h
step-IsRegistered str (handshake_failed cause) c h =
    same-IsRegistered c (step str (handshake_failed cause) c) refl h
step-IsRegistered str (connection_failed cause generation fatal reconnect) c h =
    fail_connection-IsRegistered cause fatal reconnect generation c h
step-IsRegistered str (restore generation i) c h = restore_one-IsRegistered str generation i c h
step-IsRegistered str (receive prepare pong identity m generation) c h =
    (received-Keeps prepare pong identity m generation c).1 h
step-IsRegistered str (reconnect_exhausted cause) c h = elim (Bool-cases (is_failed c.session)) [
  | inr k ↦ same-IsRegistered c (step str (reconnect_exhausted cause) c) (ground (arith, k)) h
  | inl k ↦
      same-IsRegistered (give_up cause c) (step str (reconnect_exhausted cause) c)
        (ground (arith, k)) (give_up-IsRegistered cause c h)
]
step-IsRegistered str (start_close cause) c h = begin_close-IsRegistered cause c h
step-IsRegistered str closed_socket c h =
    same-IsRegistered c (step str closed_socket c) (ground arith) h
