-- ===== src/Ws/Client/Lifecycle.antt =====
-- `connect` and `aclose` keep the writes of a client sound.
use eazy_sdk.Prelude.{
  ℕ, ◌≡◌, refl, sym, subst, Bool, true, false, Option, none, some, String, List, [], get_elem?, inl,
  inr, arith, Bool-cases, Option-cases,
}
use eazy_sdk.Ws.Decisions.{
  SessionState, handshaking, connecting, closing, closed, failed, is_handshaking, connect_action,
  ConnectAction, start, is_never,
}
use eazy_sdk.Ws.Subscription.{Subscription, given}
use eazy_sdk.Ws.Client.{Client, WriteItem, written, settle_active, finish_write}
use eazy_sdk.Ws.Client.Table.{register_subscription, subscription_records}
use eazy_sdk.Ws.Client.Failure.{queue_places, fail_outstanding, give_up, fail_subscriptions}
use eazy_sdk.Ws.Client.Connect.{
  begin_close, end_close, begin_connect, open_connection, fail_handshake, restore_one,
  recorrelate_record, teardown,
}
use eazy_sdk.Ws.Client.Writes.{Delivering, is_open}
use eazy_sdk.Ws.Client.Delivered.{
  Sound, SoundWrites, writes, settled-Delivering, settle_active-Delivering,
}
use eazy_sdk.Ws.Client.Broken.{fail_subscriptions-writes, fail_outstanding-Delivering}
use eazy_sdk.Ws.Client.Steps.{is_connecting, is_failed, is_closing}

-- Another session is sound while nothing is open.
pub closed_session :
    (session other : SessionState) (items : List WriteItem) (queue : Option (List ℕ))
    (active : Option ℕ)
    → is_open session ≡ false
    → Delivering session items queue active
    → Delivering other items queue active
closed_session session other items queue active o h = record {
  covered = h.covered;
  quiet = λ i item o' at e. h.quiet i item o at e;
  honest = h.honest;
  fresh = h.fresh;
}

-- A connection that is torn down, or a new one, while nothing is open.
emptied_queue :
    (session other : SessionState) (items : List WriteItem) (queue : Option (List ℕ))
    (active : Option ℕ) (fresh_queue : Option (List ℕ)) (other_active : Option ℕ)
    → is_open session ≡ false
    → Delivering session items queue active
    → queue_places fresh_queue ≡ []
    → Delivering other items fresh_queue other_active
emptied_queue session other items queue active fresh_queue other_active o h e =
    settled-Delivering other items fresh_queue other_active (λ i item at u. h.quiet i item o at u)
      h.honest e

abbrev pub is_start : ConnectAction → Bool
is_start start = true
is_start _ = false

abbrev pub is_closed : SessionState → Bool
is_closed closed = true
is_closed _ = false

-- What `aclose` fails the subscriptions of.
abbrev pub closing_client : ℕ → Client → Client
closing_client cause c =
    fail_outstanding cause record c { session = closing; reconnect_scheduled = false }

pub begin_close-open :
    (cause : ℕ) (c : Client)
    → is_closed c.session ≡ false
    → begin_close cause c
      ≡ fail_subscriptions
          (given cause)
          (subscription_records (closing_client cause c))
          (closing_client cause c)
unfolding begin_close
begin_close-open cause c o = ground (arith, o)

module _ (c : Client) (h : Sound c) where
  pub finish_write-Sound : Sound (finish_write c)
  unfolding finish_write settle_active
  finish_write-Sound =
      let out =
        settle_active-Delivering written (λ e. ground (arith, e)) (λ f e s. ground (arith, e)) c
          h in
      let same : (c.session, (settle_active written c).items, c.queue, none)
          ≡ writes (finish_write c) =
        elim (Option-cases c.active_write) [
          | inl n ↦ ground (arith, n)
          | inr i ↦ ground (arith, i.1)
        ] in
      subst SoundWrites same out

  pub begin_connect-Sound : is_handshaking c.session ≡ false → Sound (begin_connect c)
  unfolding begin_connect teardown connect_action
  begin_connect-Sound n = elim (Bool-cases (is_start (connect_action c.session))) [
    | inl k ↦
        let same : (connecting, c.items, none, none) ≡ writes (begin_connect c) =
          ground (arith, k) in
        subst SoundWrites same (
          emptied_queue c.session connecting c.items c.queue c.active_write none none
            (ground (arith, k, n)) h refl)
    | inr k ↦ let same : c ≡ begin_connect c = ground (arith, k) in subst Sound same h
  ]

  pub restore_one-writes :
      (str : ℕ → String) (generation i : ℕ) → writes (restore_one str generation i c) ≡ writes c
  unfolding restore_one recorrelate_record
  restore_one-writes str generation i = elim (Option-cases (get_elem? c.records i)) [
    | inl n ↦ ground (arith, n)
    | inr r ↦ elim (Bool-cases (is_never r.0.subscription.resubscribe)) [
      | inl k ↦ ground (arith, r.1, k)
      | inr k ↦ elim (Option-cases r.0.correlation) [
        | inl n ↦ ground (arith, r.1, k, n)
        | inr old ↦ ground (arith, r.1, k, old.1)
      ]
    ]
  ]

  pub register_subscription-writes :
      (str : ℕ → String) (subscription : Subscription) (channel : Option String)
      → writes (register_subscription str subscription channel c).1 ≡ writes c
  unfolding register_subscription
  register_subscription-writes str subscription none = ground arith
  register_subscription-writes str subscription (some channel) = ground arith

  pub begin_close-Sound : (cause : ℕ) → Sound (begin_close cause c)
  unfolding begin_close fail_outstanding
  begin_close-Sound cause = elim (Bool-cases (is_closed c.session)) [
    | inl k ↦ let same : c ≡ begin_close cause c = ground (arith, k) in subst Sound same h
    | inr k ↦ subst Sound (sym (begin_close-open cause c k)) (
        subst SoundWrites
          (sym (
            fail_subscriptions-writes (given cause) (subscription_records (closing_client cause c))
              (closing_client cause c)))
          (fail_outstanding-Delivering cause c h closing c.active_write))
  ]

  pub give_up-Sound : (cause : ℕ) → is_failed c.session ≡ true → Sound (give_up cause c)
  unfolding give_up
  give_up-Sound cause f =
      subst SoundWrites
        (sym (
          fail_subscriptions-writes (given cause) (subscription_records c)
            record c { session = failed; reconnect_scheduled = false }))
        (closed_session c.session failed c.items c.queue c.active_write (ground (arith, f)) h)

  pub open_connection-Sound : is_connecting c.session ≡ true → Sound (open_connection c)
  unfolding open_connection
  open_connection-Sound k =
      emptied_queue c.session handshaking c.items c.queue c.active_write (some []) c.active_write
        (ground (arith, k)) h refl

  pub end_close-Sound : is_closing c.session ≡ true → Sound (end_close c)
  unfolding end_close teardown
  end_close-Sound k =
      emptied_queue c.session closed c.items c.queue c.active_write none none (ground (arith, k)) h
        refl

  pub fail_handshake-Sound : (cause : ℕ) → Sound (fail_handshake cause c)
  unfolding fail_handshake teardown fail_outstanding
  fail_handshake-Sound cause =
      let out = fail_outstanding-Delivering cause c h failed none in
      emptied_queue failed failed (fail_outstanding cause c).items (fail_outstanding cause c).queue
        none none none refl out refl
