-- ===== src/Ws/Client/Promises.antt =====
-- What a WebSocket client promises after any steps of its tasks.
use eazy_sdk.Prelude.{
  ℕ, ◌≡◌, ◌≢◌, refl, ◌∙◌, ap, subst, Bool, false, some, String, List, [], ◌∷◌, get_elem?, arith,
}
use eazy_sdk.Ws.Replay.{AttemptDeliveryFailure}
use eazy_sdk.Ws.Subscription.{given}
use eazy_sdk.Ws.Client.{Client, WriteItem, unwritten, write_failed}
use eazy_sdk.Ws.Client.Table.{subscription_records}
use eazy_sdk.Ws.Client.Failure.{fail_outstanding, fail_connection, is_ending}
use eazy_sdk.Ws.Client.Connect.{begin_close}
use eazy_sdk.Ws.Client.Delivered.{Sound, Writes}
use eazy_sdk.Ws.Client.Broken.{
  fail_connection-AllSettled, fail_outstanding-AllSettled, fail_subscriptions-writes,
}
use eazy_sdk.Ws.Client.Lifecycle.{begin_close-open, closing_client, is_closed}
use eazy_sdk.Ws.Client.Reached.{run-Sound}
use eazy_sdk.Ws.Client.Registry.{IsRegistered}
use eazy_sdk.Ws.Client.Routed.{same-IsRegistered}
use eazy_sdk.Ws.Client.Emptied.{fail_all_empties}
use eazy_sdk.Ws.Client.Steps.{Step, step, run, new_client}
use eazy_sdk.Ws.Client.Registered.{step-IsRegistered}

new_client-Sound : (capacity : ℕ) (delays : List ℕ) → Sound (new_client capacity delays)
unfolding new_client
new_client-Sound capacity delays = record {
  covered = λ i item at e. absurd (ground (arith, at));
  quiet = λ i item o at e. ground (arith, at);
  honest = λ i item at f e s. absurd (ground (arith, at));
  fresh = λ i item f m at e s. ground (arith, at);
}

run_keeps-IsRegistered :
    (str : ℕ → String) (steps : List Step) (c : Client)
    → IsRegistered c
    → IsRegistered (run str steps c)
unfolding run
run_keeps-IsRegistered str [] c h = h
run_keeps-IsRegistered str (s ∷ steps) c h =
    run_keeps-IsRegistered str steps (step str s c) (step-IsRegistered str s c h)

module _ (str : ℕ → String) (steps : List Step) (capacity : ℕ) (delays : List ℕ) where
  -- The client that some steps lead to.
  abbrev pub reached : Client
  reached = run str steps (new_client capacity delays)

  reached-Sound : Sound reached
  reached-Sound =
      run-Sound str steps (new_client capacity delays) (new_client-Sound capacity delays)

  -- After any steps of a new client, every entry of its two registries leads to a record with that
  -- route, and no route stands in a registry twice.
  pub run-IsRegistered : IsRegistered reached
  unfolding new_client
  run-IsRegistered =
      run_keeps-IsRegistered str steps (new_client capacity delays)
        record { channels = tt; correlations = tt; channel_keys = tt; correlation_keys = tt }

  -- After any steps of a new client, a failure of the current connection of a client that is not
  -- closing or closed leaves no write that waits for an outcome.
  pub fail_connection-settles :
      (cause : ℕ) (fatal reconnect : Bool) (i : ℕ) (item : WriteItem)
      → is_ending reached.session ≡ false
      → get_elem? (fail_connection cause reached.generation fatal reconnect reached).items i
        ≡ some item
      → item.completion ≢ unwritten
  fail_connection-settles cause fatal reconnect i item o at e =
      fail_connection-AllSettled cause reached.generation fatal reconnect reached reached-Sound
        (ground (arith, o)) i item at e

  -- After any steps of a new client, a write that was reported as not sent had not been handed to
  -- the socket.
  pub unsent-not_started :
      (i : ℕ) (item : WriteItem) (f : AttemptDeliveryFailure)
      → get_elem? reached.items i ≡ some item
      → item.completion ≡ write_failed f
      → f.may_have_been_sent ≡ false
      → item.started ≡ false
  unsent-not_started i item f at e s = reached-Sound.honest i item at f e s

  -- After any steps of a new client that do not close it, `aclose` empties both registries of
  -- subscriptions.
  pub begin_close-empties :
      (cause : ℕ)
      → is_closed reached.session ≡ false
      → ((begin_close cause reached).by_channel ≡ [])
        × ((begin_close cause reached).by_correlation ≡ [])
  unfolding fail_outstanding
  begin_close-empties cause o =
      let opened_up = begin_close-open cause reached o in
      let sound = same-IsRegistered reached (closing_client cause reached) refl run-IsRegistered in
      let emptied = fail_all_empties (given cause) (closing_client cause reached) sound in
      (
        ap (λ (c : Client). c.by_channel) opened_up ∙ emptied.0,
        ap (λ (c : Client). c.by_correlation) opened_up ∙ emptied.1,
      )

  -- After any steps of a new client that do not close it, `aclose` leaves no write that waits for
  -- an outcome.
  pub begin_close-settles :
      (cause i : ℕ) (item : WriteItem)
      → is_closed reached.session ≡ false
      → get_elem? (begin_close cause reached).items i ≡ some item
      → item.completion ≢ unwritten
  unfolding fail_outstanding
  begin_close-settles cause i item o at e =
      let opened_up = begin_close-open cause reached o in
      let same =
        fail_subscriptions-writes (given cause)
          (subscription_records (closing_client cause reached)) (closing_client cause reached) in
      fail_outstanding-AllSettled cause reached reached-Sound i item
        (subst (λ (w : Writes). get_elem? w.1 i ≡ some item) same
          (subst (λ (c : Client). get_elem? c.items i ≡ some item) opened_up at))
        e
