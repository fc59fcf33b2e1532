-- ===== src/Ws/Client/Reached.antt =====
-- The writes of a client after any steps.
use eazy_sdk.Prelude.{
  ℕ, ◌≡◌, refl, sym, subst, false, String, List, [], ◌∷◌, inl, inr, arith, Bool-cases, Option-cases,
}
use eazy_sdk.Ws.Decisions.{failed, is_handshaking}
use eazy_sdk.Ws.Client.{
  Client, unwritten, write_cancelled, register_call, finish_call, PendingKey, start_write,
}
use eazy_sdk.Ws.Client.Failure.{give_up}
use eazy_sdk.Ws.Client.Connect.{end_close, begin_connect, open_connection}
use eazy_sdk.Ws.Client.Delivered.{Sound, SoundWrites, writes, settle-Delivering}
use eazy_sdk.Ws.Client.Queued.{enqueue_item-Sound, start_write-Sound}
use eazy_sdk.Ws.Client.Broken.{remove_subscription-writes, fail_connection-Sound, break_write-Sound}
use eazy_sdk.Ws.Client.Received.{received-Keeps}
use eazy_sdk.Ws.Client.Steps.{
  receive, Step, enqueue, take_write, end_write, fail_write_at, cancel_write, call, end_call,
  subscribe, unsubscribe, update, start_connect, opened, handshake_done, handshake_failed,
  connect_failed, connection_failed, restore, reconnect_exhausted, start_close, closed_socket, step,
  run, is_connecting, is_failed, is_closing,
}
use eazy_sdk.Ws.Client.Lifecycle.{
  finish_write-Sound, begin_connect-Sound, restore_one-writes, register_subscription-writes,
  begin_close-Sound, give_up-Sound, open_connection-Sound, end_close-Sound, fail_handshake-Sound,
  closed_session,
}

register_call-writes : (str : ℕ → String) (c : Client) → writes (register_call str c).1 ≡ writes c
unfolding register_call
register_call-writes str c = refl

finish_call-writes :
    (key : PendingKey) (i : ℕ) (c : Client) → writes (finish_call key i c) ≡ writes c
unfolding finish_call
finish_call-writes key i c = refl

pub step-Sound : (str : ℕ → String) (s : Step) (c : Client) → Sound c → Sound (step str s c)
unfolding step
step-Sound str (enqueue frame exchange allowed) c h =
    enqueue_item-Sound c
      record { frame = frame; completion = unwritten; exchange = exchange; started = false } allowed
      0 refl h
step-Sound str take_write c h = elim (Option-cases c.active_write) [
  | inl n ↦
      let same : start_write c ≡ step str take_write c = ground (arith, n) in
      subst Sound same (start_write-Sound c n h)
  | inr i ↦ let same : c ≡ step str take_write c = ground (arith, i.1) in subst Sound same h
]
step-Sound str end_write c h = finish_write-Sound c h
step-Sound str (fail_write_at cause generation) c h = break_write-Sound cause generation c h
step-Sound str (cancel_write i) c h =
    settle-Delivering write_cancelled (λ e. ground (arith, e)) (λ f e s. ground (arith, e)) i c h
step-Sound str call c h = subst SoundWrites (sym (register_call-writes str c)) h
step-Sound str (end_call key i) c h = subst SoundWrites (sym (finish_call-writes key i c)) h
step-Sound str (subscribe subscription channel) c h =
    subst SoundWrites (sym (register_subscription-writes c h str subscription channel)) h
step-Sound str (unsubscribe i) c h = subst SoundWrites (sym (remove_subscription-writes i c)) h
step-Sound str (update f i) c h = h
step-Sound str start_connect c h = elim (Bool-cases (is_handshaking c.session)) [
  | inl k ↦ let same : c ≡ step str start_connect c = ground (arith, k) in subst Sound same h
  | inr k ↦
      let same : begin_connect c ≡ step str start_connect c = ground (arith, k) in
      subst Sound same (begin_connect-Sound c h k)
]
step-Sound str opened c h = elim (Bool-cases (is_connecting c.session)) [
  | inr k ↦ let same : c ≡ step str opened c = ground (arith, k) in subst Sound same h
  | inl k ↦
      let same : open_connection c ≡ step str opened c = ground (arith, k) in
      subst Sound same (open_connection-Sound c h k)
]
step-Sound str connect_failed c h = elim (Bool-cases (is_connecting c.session)) [
  | inr k ↦ let same : c ≡ step str connect_failed c = ground (arith, k) in subst Sound same h
  | inl k ↦
      let out : Client = record c { session = failed } in
      let same : out ≡ step str connect_failed c = ground (arith, k) in
      subst Sound same
        (closed_session c.session failed c.items c.queue c.active_write (ground (arith, k)) h)
]
step-Sound str handshake_done c h = record {
  covered = h.covered;
  quiet = λ i item o at e. ground (arith, o);
  honest = h.honest;
  fresh = h.fresh;
}
step-Sound str (handshake_failed cause) c h = fail_handshake-Sound c h cause
step-Sound str (connection_failed cause generation fatal reconnect) c h =
    fail_connection-Sound cause generation fatal reconnect c h
step-Sound str (restore generation i) c h =
    subst SoundWrites (sym (restore_one-writes c h str generation i)) h
step-Sound str (receive prepare pong identity m generation) c h =
    (received-Keeps prepare pong identity m generation c).0 h
step-Sound str (reconnect_exhausted cause) c h = elim (Bool-cases (is_failed c.session)) [
  | inr k ↦
      let same : c ≡ step str (reconnect_exhausted cause) c = ground (arith, k) in
      subst Sound same h
  | inl k ↦
      let same : give_up cause c ≡ step str (reconnect_exhausted cause) c = ground (arith, k) in
      subst Sound same (give_up-Sound c h cause k)
]
step-Sound str (start_close cause) c h = begin_close-Sound c h cause
step-Sound str closed_socket c h = elim (Bool-cases (is_closing c.session)) [
  | inr k ↦ let same : c ≡ step str closed_socket c = ground (arith, k) in subst Sound same h
  | inl k ↦
      let same : end_close c ≡ step str closed_socket c = ground (arith, k) in
      subst Sound same (end_close-Sound c h k)
]

pub run-Sound :
    (str : ℕ → String) (steps : List Step) (c : Client) → Sound c → Sound (run str steps c)
unfolding run
run-Sound str [] c h = h
run-Sound str (s ∷ steps) c h = run-Sound str steps (step str s c) (step-Sound str s c h)
