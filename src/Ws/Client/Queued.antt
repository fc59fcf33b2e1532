-- ===== src/Ws/Client/Queued.antt =====
-- The queue of a client keeps its writes sound.
use eazy_sdk.Prelude.{
  ℕ, zero, suc, ◌≡◌, refl, sym, ◌∙◌, ap, subst, Bool, true, Option, none, some, List, [], ◌∷◌, ◌++◌,
  get_elem?, length, inl, inr, ◌⊎◌, arith, Bool-cases, Option-cases, is_some, leb,
}
use eazy_sdk.Dict.{Mem}
use eazy_sdk.Ws.Decisions.{SessionState, write_admitted}
use eazy_sdk.Ws.Client.{
  Client, WriteItem, unwritten, write_failed, alter, enqueue_item, start_write,
}
use eazy_sdk.Ws.Client.Failure.{active_places}
use eazy_sdk.Ws.Client.Writes.{Delivering, alter-inv, is_open}
use eazy_sdk.Ws.Client.Delivered.{Sound, SoundWrites, writes}

get_elem?-snoc-inv :
    {A : Type 0} (heap : List A) (i : ℕ) (a b : A)
    → get_elem? (heap ++ a ∷ []) i ≡ some b
    → (get_elem? heap i ≡ some b) ⊎ ((i ≡ length heap) × (b ≡ a))
get_elem?-snoc-inv [] zero a b h = inr (refl, ground (arith, h))
get_elem?-snoc-inv [] (suc i) a b h = absurd (ground (arith, h))
get_elem?-snoc-inv (x ∷ heap) zero a b h = inl h
get_elem?-snoc-inv (x ∷ heap) (suc i) a b h = elim (get_elem?-snoc-inv heap i a b h) [
  | inl k ↦ inl k
  | inr k ↦ inr (ap suc k.0, k.1)
]

Mem-snoc : (i j : ℕ) (l : List ℕ) → Mem i l → Mem i (l ++ j ∷ [])
Mem-snoc i j [] m = elim m [ ]
Mem-snoc i j (x ∷ l) (inl e) = inl e
Mem-snoc i j (x ∷ l) (inr m) = inr (Mem-snoc i j l m)

Mem-last : (i : ℕ) (l : List ℕ) → Mem i (l ++ i ∷ [])
Mem-last i [] = inl refl
Mem-last i (x ∷ l) = inr (Mem-last i l)

Mem-snoc-inv : (i j : ℕ) (l : List ℕ) → Mem i (l ++ j ∷ []) → Mem i l ⊎ (i ≡ j)
Mem-snoc-inv i j [] (inl e) = inr e
Mem-snoc-inv i j [] (inr m) = elim m [ ]
Mem-snoc-inv i j (x ∷ l) (inl e) = inl (inl e)
Mem-snoc-inv i j (x ∷ l) (inr m) = elim (Mem-snoc-inv i j l m) [
  | inl k ↦ inl (inr k)
  | inr e ↦ inr e
]

get_elem?-length : {A : Type 0} (heap : List A) → get_elem? heap (length heap) ≡ none
get_elem?-length [] = refl
get_elem?-length (x ∷ heap) = get_elem?-length heap

places_snoc :
    (active : Option ℕ) (queue : List ℕ) (n : ℕ)
    → (active_places active ++ queue) ++ n ∷ [] ≡ active_places active ++ (queue ++ n ∷ [])
places_snoc none queue n = refl
places_snoc (some i) queue n = refl

-- A new write, at the end of the queue.
module _ (c : Client) (queue : List ℕ) (item : WriteItem) where
  pub snoc-Delivering :
      Delivering c.session c.items (some queue) c.active_write
      → is_open c.session ≡ true
      → item.completion ≡ unwritten
      → Delivering c.session
          (c.items ++ item ∷ [])
          (some (queue ++ length c.items ∷ []))
          c.active_write
  snoc-Delivering h o u = record {
    covered = λ i x at e. elim (get_elem?-snoc-inv c.items i item x at) [
      | inl k ↦
          subst (Mem i) (places_snoc c.active_write queue (length c.items)) (
            Mem-snoc i (length c.items) (active_places c.active_write ++ queue) (h.covered i x k e))
      | inr k ↦ subst (Mem i) (places_snoc c.active_write queue (length c.items)) (
          subst (λ z. Mem z ((active_places c.active_write ++ queue) ++ length c.items ∷ []))
            (sym k.0) (Mem-last (length c.items) (active_places c.active_write ++ queue)))
    ];
    quiet = λ i x o' at e. ground (arith, o, o');
    honest = λ i x at f e sent. elim (get_elem?-snoc-inv c.items i item x at) [
      | inl k ↦ h.honest i x k f e sent
      | inr k ↦ absurd (ground (arith, k.1, e, u))
    ];
    fresh = λ i x f m at e sent. elim (get_elem?-snoc-inv c.items i item x at) [
      | inl k ↦ elim (Mem-snoc-inv i (length c.items) queue m) [
        | inl m' ↦ h.fresh i x f m' k e sent
        | inr q ↦ absurd (
            ground (arith, subst (λ z. get_elem? c.items z ≡ some x) q k, get_elem?-length c.items))
      ]
      | inr k ↦ ground (arith, k.1, e, u)
    ];
  }

pub enqueue_item-Sound :
    (c : Client) (item : WriteItem) (allowed : Bool) (cause : ℕ)
    → item.completion ≡ unwritten
    → Sound c
    → Sound (enqueue_item c item allowed cause).0
unfolding enqueue_item write_admitted
enqueue_item-Sound c item allowed cause u h =
    let unchanged : (enqueue_item c item allowed cause).0 ≡ c
        → Sound (enqueue_item c item allowed cause).0 =
      λ e. subst Sound (sym e) h in
    elim (Bool-cases (write_admitted c.session allowed (is_some c.queue))) [
      | inr a ↦ unchanged (ground (arith, a))
      | inl a ↦ elim (Option-cases c.queue) [
        | inl n ↦ unchanged (ground (arith, a, n))
        | inr q ↦ elim (Bool-cases (leb c.capacity (length q.0))) [
          | inl full ↦ unchanged (ground (arith, a, q.1, full))
          | inr room ↦
              let out : Client = record c {
                items = c.items ++ item ∷ [];
                queue = some (q.0 ++ length c.items ∷ []);
              } in
              let same : out ≡ (enqueue_item c item allowed cause).0 =
                ground (arith, a, q.1, room) in
              subst Sound same (
                snoc-Delivering c q.0 item
                  (subst (λ z. Delivering c.session c.items z c.active_write) q.1 h)
                  (ground (arith, a)) u)
        ]
      ]
    ]

abbrev begun : WriteItem → WriteItem
begun w = record w { started = true }

-- The writer begins the first write of the queue.
taken-Delivering :
    (session : SessionState) (items : List WriteItem) (i : ℕ) (queue : List ℕ)
    → Delivering session items (some (i ∷ queue)) none
    → Delivering session (alter begun i items) (some queue) (some i)
taken-Delivering session items i queue h =
    let old : (j : ℕ) (x : WriteItem)
        → get_elem? (alter begun i items) j ≡ some x
        → (a : WriteItem) × (get_elem? items j ≡ some a) × (x.completion ≡ a.completion) =
      λ j x at.
        let before = alter-inv begun i j items x at in
        (
          before.0,
          before.1,
          elim (before.2) [
            | inl k ↦ ap (λ (z : WriteItem). z.completion) k.1
            | inr k ↦ ap (λ (z : WriteItem). z.completion) k.1
          ],
        ) in
    record {
      covered = λ j x at e. let a = old j x at in h.covered j a.0 a.1 (sym a.2 ∙ e);
      quiet = λ j x o at e. let a = old j x at in h.quiet j a.0 o a.1 (sym a.2 ∙ e);
      honest = λ j x at f e sent.
          let before = alter-inv begun i j items x at in
          elim (before.2) [
            | inl k ↦
                let same : before.0.completion ≡ write_failed f =
                  sym (ap (λ (z : WriteItem). z.completion) k.1) ∙ e in
                absurd (h.fresh j before.0 f (inl (sym k.0)) before.1 same sent)
            | inr k ↦ ground (arith, k.1, e, sent, h.honest j before.0 before.1 f)
          ];
      fresh =
          λ j x f m at e sent. let a = old j x at in h.fresh j a.0 f (inr m) a.1 (sym a.2 ∙ e) sent;
    }

take_first :
    (c : Client) (queue : List ℕ)
    → c.queue ≡ some queue
    → c.active_write ≡ none
    → Sound c
    → Sound (start_write c)
unfolding start_write
take_first c [] q n h = let same : c ≡ start_write c = ground (arith, q) in subst Sound same h
take_first c (i ∷ queue) q n h = elim (Option-cases (get_elem? c.items i)) [
  | inl m ↦ let same : c ≡ start_write c = ground (arith, q, m) in subst Sound same h
  | inr item ↦
      let same : (c.session, alter begun i c.items, some queue, some i) ≡ writes (start_write c) =
        ground (arith, q, item.1) in
      subst SoundWrites same (
        taken-Delivering c.session c.items i queue (
          subst (λ z. Delivering c.session c.items (some (i ∷ queue)) z) n
            (subst (λ z. Delivering c.session c.items z c.active_write) q h)))
]

-- The writer takes the first item of the queue.
pub start_write-Sound : (c : Client) → c.active_write ≡ none → Sound c → Sound (start_write c)
unfolding start_write
start_write-Sound c n h =
    let unchanged : start_write c ≡ c → Sound (start_write c) = λ e. subst Sound (sym e) h in
    elim (Option-cases c.queue) [
      | inl q ↦ unchanged (ground (arith, q))
      | inr q ↦ take_first c q.0 q.1 n h
    ]
