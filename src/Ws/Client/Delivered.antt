-- ===== src/Ws/Client/Delivered.antt =====
-- Each step of a client keeps its writes sound.
use eazy_sdk.Prelude.{
  ℕ, ◌≡◌, sym, ◌∙◌, ap, subst, false, Option, none, some, List, [], ◌++◌, get_elem?, inl, inr,
  arith, Option-cases,
}
use eazy_sdk.Dict.{Mem}
use eazy_sdk.Ws.Replay.{AttemptDeliveryFailure}
use eazy_sdk.Ws.Decisions.{SessionState}
use eazy_sdk.Ws.Client.{
  Client, WriteItem, Completion, unwritten, write_failed, alter, settle_write, settle_active,
}
use eazy_sdk.Ws.Client.Failure.{active_places, queue_places}
use eazy_sdk.Ws.Client.Writes.{Delivering, alter-inv, AllSettled, Honest}

-- Without an unsettled write and with an empty queue all is sound.
pub settled-Delivering :
    (session : SessionState) (items : List WriteItem) (queue : Option (List ℕ)) (active : Option ℕ)
    → AllSettled items
    → ((i : ℕ) (item : WriteItem) → get_elem? items i ≡ some item → Honest item)
    → queue_places queue ≡ []
    → Delivering session items queue active
settled-Delivering session items queue active all honest empty = record {
  covered = λ i item at e. absurd (all i item at e);
  quiet = λ i item o at e. all i item at e;
  honest = honest;
  fresh = λ i item f m at e sent. elim (subst (Mem i) empty m) [ ];
}

-- What the soundness of a client's writes is about.
abbrev pub Writes : Type 0
Writes = SessionState × List WriteItem × Option (List ℕ) × Option ℕ

abbrev pub writes : Client → Writes
writes c = (c.session, c.items, c.queue, c.active_write)

abbrev pub SoundWrites : Writes → Type 0
SoundWrites w = Delivering w.0 w.1 w.2 w.3

abbrev pub Sound : Client → Type 0
Sound c = Delivering c.session c.items c.queue c.active_write

-- A write that is settled at a place, by an outcome that is no report of an unsent write.
module _ (outcome : Completion) (is_settled : outcome ≡ unwritten → ⊥)
    (true_report : (f : AttemptDeliveryFailure)
      → outcome ≡ write_failed f
      → f.may_have_been_sent ≡ false
      → ⊥) where
  settle-Honest :
      (i : ℕ) (items : List WriteItem)
      → ((j : ℕ) (item : WriteItem) → get_elem? items j ≡ some item → Honest item)
      → (j : ℕ) (item : WriteItem) → get_elem? (alter (settle_write outcome) i items) j ≡ some item
      → Honest item
  unfolding settle_write
  settle-Honest i items h j item at f e sent =
      let before = alter-inv (settle_write outcome) i j items item at in
      elim (before.2) [
        | inl k ↦ ground (arith, k.1, e, sent, h j before.0 before.1 f, true_report f)
        | inr k ↦ ground (arith, k.1, e, sent, h j before.0 before.1 f)
      ]

  -- An unsettled write was unsettled before, and is not the one that was settled.
  pub settle-unwritten :
      (i j : ℕ) (items : List WriteItem) (item : WriteItem)
      → get_elem? (alter (settle_write outcome) i items) j ≡ some item
      → item.completion ≡ unwritten
      → (get_elem? items j ≡ some item) × (i ≡ j → ⊥)
  unfolding settle_write
  settle-unwritten i j items item at e =
      let before = alter-inv (settle_write outcome) i j items item at in
      elim (before.2) [
        | inl k ↦ absurd (ground (arith, k.1, e, is_settled))
        | inr k ↦ (before.1 ∙ ap (λ z. some z) (sym k.1), k.0)
      ]

  settle-fresh :
      {P : Type 0} (i j : ℕ) (items : List WriteItem) (item : WriteItem)
      (f : AttemptDeliveryFailure)
      → ((old : WriteItem) (g : AttemptDeliveryFailure)
          → P
          → get_elem? items j ≡ some old
          → old.completion ≡ write_failed g
          → g.may_have_been_sent ≡ false
          → ⊥)
      → P
      → get_elem? (alter (settle_write outcome) i items) j ≡ some item
      → item.completion ≡ write_failed f
      → f.may_have_been_sent ≡ false
      → ⊥
  unfolding settle_write
  settle-fresh i j items item f h p at e sent =
      let before = alter-inv (settle_write outcome) i j items item at in
      elim (before.2) [
        | inl k ↦ ground (arith, k.1, e, sent, true_report f, h before.0 f p before.1)
        | inr k ↦ ground (arith, k.1, e, sent, h before.0 f p before.1)
      ]

  -- The active write is settled, and is active no longer.
  pub settle_active-Delivering :
      (c : Client) → Sound c → Delivering c.session (settle_active outcome c).items c.queue none
  unfolding settle_active
  settle_active-Delivering c h = elim (Option-cases c.active_write) [
    | inl n ↦
        let same : c.items ≡ (settle_active outcome c).items = ground (arith, n) in
        subst (λ z. Delivering c.session z c.queue none) same
          (subst (λ z. Delivering c.session c.items c.queue z) n h)
    | inr i ↦
        let same : alter (settle_write outcome) i.0 c.items ≡ (settle_active outcome c).items =
          ground (arith, i.1) in
        subst (λ z. Delivering c.session z c.queue none) same
          (record {
            covered = λ j item at e.
                let before = settle-unwritten i.0 j c.items item at e in
                elim (subst (λ z. Mem j (active_places z ++ queue_places c.queue)) i.1
                  (h.covered j item before.0 e)) [ inl q ↦ absurd (before.1 (sym q)) | inr m ↦ m ];
            quiet =
                λ j item o at e. h.quiet j item o (settle-unwritten i.0 j c.items item at e).0 e;
            honest = settle-Honest i.0 c.items h.honest;
            fresh =
                λ j item f m at e sent. settle-fresh i.0 j c.items item f (h.fresh j) m at e sent;
          })
  ]

  -- The same, where any write is settled and the active one stays.
  pub settle-Delivering :
      (i : ℕ) (c : Client)
      → Sound c
      → Delivering c.session (alter (settle_write outcome) i c.items) c.queue c.active_write
  settle-Delivering i c h = record {
    covered = λ j item at e. h.covered j item (settle-unwritten i j c.items item at e).0 e;
    quiet = λ j item o at e. h.quiet j item o (settle-unwritten i j c.items item at e).0 e;
    honest = settle-Honest i c.items h.honest;
    fresh = λ j item f m at e sent. settle-fresh i j c.items item f (h.fresh j) m at e sent;
  }
