-- ===== src/Ws/Client/Writes.antt =====
-- The writes of a client: none is lost, and none that was begun is reported as unsent.
use eazy_sdk.Prelude.{
  ℕ, zero, suc, ◌≡◌, refl, sym, ◌∙◌, ap, Bool, true, false, Option, some, List, [], ◌∷◌, ◌++◌,
  get_elem?, inl, inr, ◌⊎◌, arith,
}
use eazy_sdk.Dict.{Mem}
use eazy_sdk.Ws.Replay.{AttemptDeliveryFailure}
use eazy_sdk.Ws.Decisions.{SessionState, ready, handshaking}
use eazy_sdk.Ws.Client.{WriteItem, unwritten, write_failed, alter, alter_all, settle_write}
use eazy_sdk.Ws.Client.Failure.{active_places, queue_places, fail_write}

-- An object of a heap after a change of the one at a place.
pub alter-inv :
    {A : Type 0} (f : A → A) (i j : ℕ) (heap : List A) (b : A)
    → get_elem? (alter f i heap) j ≡ some b
    → (a : A) × (get_elem? heap j ≡ some a) × (((i ≡ j) × (b ≡ f a)) ⊎ ((i ≡ j → ⊥) × (b ≡ a)))
unfolding alter
alter-inv f i j [] b h = absurd (ground (arith, h))
alter-inv f zero zero (a ∷ heap) b h = (a, refl, inl (refl, ground (arith, h)))
alter-inv f zero (suc j) (a ∷ heap) b h = (b, h, inr (λ e. omega (arith, e), refl))
alter-inv f (suc i) zero (a ∷ heap) b h = (a, refl, inr (λ e. omega (arith, e), ground (arith, h)))
alter-inv f (suc i) (suc j) (a ∷ heap) b h =
    let rest = alter-inv f i j heap b h in
    (
      rest.0,
      rest.1,
      elim (rest.2) [
        | inl k ↦ inl (ap suc k.0, k.1)
        | inr k ↦ inr (λ e. k.0 (omega (arith, e)), k.1)
      ],
    )

pub alter_all-inv :
    {A : Type 0} (f : A → A) (refs : List ℕ) (j : ℕ) (heap : List A) (b : A)
    → ((a : A) → f (f a) ≡ f a)
    → get_elem? (alter_all f refs heap) j ≡ some b
    → (a : A) × (get_elem? heap j ≡ some a)
      × ((Mem j refs × (b ≡ f a)) ⊎ ((Mem j refs → ⊥) × (b ≡ a)))
unfolding alter_all
alter_all-inv f [] j heap b twice h = (b, h, inr (λ m. m, refl))
alter_all-inv f (i ∷ refs) j heap b twice h =
    let rest = alter_all-inv f refs j (alter f i heap) b twice h in
    let one = alter-inv f i j heap rest.0 rest.1 in
    (
      one.0,
      one.1,
      elim (one.2) [
        | inl k ↦ elim (rest.2) [
          | inl l ↦ inl (inl (sym k.0), l.1 ∙ ap f k.1 ∙ twice one.0)
          | inr l ↦ inl (inl (sym k.0), l.1 ∙ k.1)
        ]
        | inr k ↦ elim (rest.2) [
          | inl l ↦ inl (inr l.0, l.1 ∙ ap f k.1)
          | inr l ↦ inr (λ m. elim m [ inl e ↦ k.0 (sym e) | inr n ↦ l.0 n ], l.1 ∙ k.1)
        ]
      ],
    )

abbrev pub is_open : SessionState → Bool
is_open ready = true
is_open handshaking = true
is_open _ = false

-- A write that is reported as unsent was not begun.
abbrev pub Honest : WriteItem → Type 0
Honest item =
    (f : AttemptDeliveryFailure)
    → item.completion ≡ write_failed f
    → f.may_have_been_sent ≡ false
    → item.started ≡ false

-- What holds of the session, the items, the queue and the active write.
pub record Delivering (session : SessionState) (items : List WriteItem) (queue : Option (List ℕ))
    (active : Option ℕ) : Type 0 where
  pub covered :
      (i : ℕ) (item : WriteItem)
      → get_elem? items i ≡ some item
      → item.completion ≡ unwritten
      → Mem i (active_places active ++ queue_places queue)
  pub quiet :
      (i : ℕ) (item : WriteItem)
      → is_open session ≡ false
      → get_elem? items i ≡ some item
      → item.completion ≡ unwritten
      → ⊥
  pub honest : (i : ℕ) (item : WriteItem) → get_elem? items i ≡ some item → Honest item
  pub fresh :
      (i : ℕ) (item : WriteItem) (f : AttemptDeliveryFailure)
      → Mem i (queue_places queue)
      → get_elem? items i ≡ some item
      → item.completion ≡ write_failed f
      → f.may_have_been_sent ≡ false
      → ⊥

-- No write is unsettled.
abbrev pub AllSettled : List WriteItem → Type 0
AllSettled items =
    (i : ℕ) (item : WriteItem) → get_elem? items i ≡ some item → item.completion ≡ unwritten → ⊥

pub fail_write-twice :
    (cause : ℕ) (item : WriteItem)
    → fail_write cause (fail_write cause item) ≡ fail_write cause item
unfolding fail_write settle_write
fail_write-twice cause item = ground arith

module _ (session : SessionState) (items : List WriteItem) (queue : Option (List ℕ))
    (active : Option ℕ) (h : Delivering session items queue active) (cause : ℕ) where
  abbrev pub failed_items : List WriteItem
  failed_items = alter_all (fail_write cause) (active_places active ++ queue_places queue) items

  pub failed-AllSettled : AllSettled failed_items
  unfolding fail_write settle_write
  failed-AllSettled i item at e =
      let before =
        alter_all-inv (fail_write cause) (active_places active ++ queue_places queue) i items item
          (fail_write-twice cause) at in
      elim (before.2) [
        | inl k ↦ ground (arith, k.1, e)
        | inr k ↦ k.0 (h.covered i before.0 before.1 (ground (arith, k.1, e)))
      ]

  pub failed-Honest :
      (i : ℕ) (item : WriteItem) → get_elem? failed_items i ≡ some item → Honest item
  unfolding fail_write settle_write
  failed-Honest i item at f e sent =
      let before =
        alter_all-inv (fail_write cause) (active_places active ++ queue_places queue) i items item
          (fail_write-twice cause) at in
      elim (before.2) [
        | inl k ↦ ground (arith, k.1, e, sent, h.honest i before.0 before.1 f)
        | inr k ↦ ground (arith, k.1, e, sent, h.honest i before.0 before.1 f)
      ]
