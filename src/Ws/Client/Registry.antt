-- ===== src/Ws/Client/Registry.antt =====
-- The registries of subscriptions: a record stands under its own route.
use eazy_sdk.Prelude.{
  ℕ, zero, suc, ◌≡◌, refl, sym, ◌∙◌, ap, subst, true, false, Option, none, some, String, List, [],
  ◌∷◌, ◌++◌, ◌==◌, get_elem?, length, str_eq, inl, inr, arith, All, Bool-cases, eq_iff,
}
use eazy_sdk.Dict.{Mem, remove, put}
use eazy_sdk.Dict.Distinct.{Distinct, remove-Distinct, Absent}
use eazy_sdk.Ws.Client.{Client, SubscriptionRecord, alter}
use eazy_sdk.Ws.Client.Table.{drop_key}

pub get_elem?-alter_other :
    {A : Type 0} (f : A → A) (i j : ℕ) (heap : List A)
    → (i ≡ j → ⊥)
    → get_elem? (alter f i heap) j ≡ get_elem? heap j
unfolding alter
get_elem?-alter_other f i j [] h = refl
get_elem?-alter_other f zero zero (a ∷ heap) h = absurd (h refl)
get_elem?-alter_other f zero (suc j) (a ∷ heap) h = refl
get_elem?-alter_other f (suc i) zero (a ∷ heap) h = refl
get_elem?-alter_other f (suc i) (suc j) (a ∷ heap) h =
    get_elem?-alter_other f i j heap λ e. h (ap suc e)

pub get_elem?-alter_self :
    {A : Type 0} (f : A → A) (i : ℕ) (heap : List A) (a : A)
    → get_elem? heap i ≡ some a
    → get_elem? (alter f i heap) i ≡ some (f a)
unfolding alter
get_elem?-alter_self f i [] a h = absurd (ground (arith, h))
get_elem?-alter_self f zero (x ∷ heap) a h = ground (arith, h)
get_elem?-alter_self f (suc i) (x ∷ heap) a h = get_elem?-alter_self f i heap a h

pub get_elem?-snoc :
    {A : Type 0} (heap : List A) (i : ℕ) (a b : A)
    → get_elem? heap i ≡ some a
    → get_elem? (heap ++ b ∷ []) i ≡ some a
get_elem?-snoc [] i a b h = absurd (ground (arith, h))
get_elem?-snoc (x ∷ heap) zero a b h = h
get_elem?-snoc (x ∷ heap) (suc i) a b h = get_elem?-snoc heap i a b h

pub get_elem?-last :
    {A : Type 0} (heap : List A) (a : A) → get_elem? (heap ++ a ∷ []) (length heap) ≡ some a
get_elem?-last [] a = refl
get_elem?-last (x ∷ heap) a = get_elem?-last heap a

-- The record at a place has the route.
abbrev pub Stands :
    (SubscriptionRecord → Option String) → List SubscriptionRecord → String × ℕ → Type 0
Stands route records kv =
    (r : SubscriptionRecord) × (get_elem? records kv.1 ≡ some r) × (route r ≡ some kv.0)

pub All-map :
    {A : Type 0} {P Q : A → Type 0} (l : List A) → ((a : A) → P a → Q a) → All P l → All Q l
All-map [] f h = tt
All-map (a ∷ l) f h = (f a h.0, All-map l f h.1)

pub remove-entries :
    (P : String × ℕ → Type 0) (key : String) (registry : List (String × ℕ))
    → All P registry
    → All P (remove str_eq key registry)
unfolding remove
remove-entries P key [] h = tt
remove-entries P key ((name, i) ∷ registry) h = elim (Bool-cases (str_eq name key)) [
  | inl e ↦ ground (arith, h.1)
  | inr e ↦ ground (arith, h.0, remove-entries P key registry h.1)
]

pub put-entries :
    (P : String × ℕ → Type 0) (key : String) (place : ℕ) (registry : List (String × ℕ))
    → P (key, place)
    → All P registry
    → All P (put str_eq key place registry)
unfolding put
put-entries P key place [] p h = (p, tt)
put-entries P key place ((name, i) ∷ registry) p h = elim (Bool-cases (str_eq name key)) [
  | inl e ↦
      let same : name ≡ key = (eq_iff name key).0 e in
      ground (arith, e, h.1, subst (λ z. P (z, place)) (sym same) p)
  | inr e ↦ ground (arith, e, h.0, put-entries P key place registry p h.1)
]

module _ (route : SubscriptionRecord → Option String) where
  abbrev pub Routes : List SubscriptionRecord → List (String × ℕ) → Type 0
  Routes records registry = All (Stands route records) registry

  pub Routes-alter :
      (f : SubscriptionRecord → SubscriptionRecord) (i : ℕ) (records : List SubscriptionRecord)
      (registry : List (String × ℕ))
      → ((r : SubscriptionRecord) → route (f r) ≡ route r)
      → Routes records registry
      → Routes (alter f i records) registry
  Routes-alter f i records registry same h =
      All-map registry
        (λ (kv : String × ℕ) (s : Stands route records kv). elim (Bool-cases (i == kv.1)) [
          | inl e ↦
              let here : i ≡ kv.1 = ground (arith, e) in
              (
                f s.0,
                subst (λ z. get_elem? (alter f z records) kv.1 ≡ some (f s.0)) (sym here)
                    (get_elem?-alter_self f kv.1 records s.0 s.1),
                same s.0 ∙ s.2,
              )
          | inr e ↦
              (s.0, get_elem?-alter_other f i kv.1 records (λ q. ground (arith, e, q)) ∙ s.1, s.2)
        ])
        h

  pub Routes-snoc :
      (records : List SubscriptionRecord) (r : SubscriptionRecord) (registry : List (String × ℕ))
      → Routes records registry
      → Routes (records ++ r ∷ []) registry
  Routes-snoc records r registry h =
      All-map registry
        (λ (kv : String × ℕ) (s : Stands route records kv).
          (s.0, get_elem?-snoc records kv.1 s.0 r s.1, s.2))
        h

  pub Routes-drop_key :
      (records : List SubscriptionRecord) (key : Option String) (registry : List (String × ℕ))
      → Routes records registry
      → Routes records (drop_key key registry)
  unfolding drop_key
  Routes-drop_key records none registry h = h
  Routes-drop_key records (some key) registry h =
      remove-entries (Stands route records) key registry h

pub drop_key-Distinct :
    (key : Option String) (registry : List (String × ℕ))
    → Distinct str_eq registry
    → Distinct str_eq (drop_key key registry)
unfolding drop_key
drop_key-Distinct none registry h = h
drop_key-Distinct (some key) registry h = remove-Distinct str_eq key registry h

-- What the registries of a client hold.
pub record IsRegistered (c : Client) : Type 0 where
  pub channels : Routes (λ r. r.channel) c.records c.by_channel
  pub correlations : Routes (λ r. r.correlation) c.records c.by_correlation
  pub channel_keys : Distinct str_eq c.by_channel
  pub correlation_keys : Distinct str_eq c.by_correlation

Absent-Mem :
    (key : String) (kv : String × ℕ) (registry : List (String × ℕ))
    → Absent str_eq key registry
    → Mem kv registry
    → str_eq key kv.0 ≡ false
Absent-Mem key kv [] a m = elim m [ ]
Absent-Mem key kv (entry ∷ registry) a (inl e) =
    subst (λ (z : String × ℕ). str_eq key z.0 ≡ false) (sym e) a.0
Absent-Mem key kv (entry ∷ registry) a (inr m) = Absent-Mem key kv registry a.1 m

-- A key that is removed is gone.
pub remove-Mem :
    (kv : String × ℕ) (registry : List (String × ℕ))
    → Distinct str_eq registry
    → Mem kv (remove str_eq kv.0 registry)
    → ⊥
unfolding remove
remove-Mem kv [] d m = elim m [ ]
remove-Mem kv ((name, i) ∷ registry) d m = elim (Bool-cases (str_eq name kv.0)) [
  | inl e ↦
      let rest : remove str_eq kv.0 ((name, i) ∷ registry) ≡ registry = ground (arith, e) in
      ground (arith, e, Absent-Mem name kv registry d.0 (subst (Mem kv) rest m))
  | inr e ↦
      let rest : remove str_eq kv.0 ((name, i) ∷ registry)
          ≡ (name, i) ∷ remove str_eq kv.0 registry =
        ground (arith, e) in
      elim (subst (Mem kv) rest m) [
        | inl q ↦
            let same : str_eq name kv.0 ≡ true =
              (eq_iff name kv.0).1 (sym (ap (λ (z : String × ℕ). z.0) q)) in
            ground (arith, e, same)
        | inr later ↦ remove-Mem kv registry d.1 later
      ]
]

pub Mem-remove :
    (key : String) (kv : String × ℕ) (registry : List (String × ℕ))
    → Mem kv (remove str_eq key registry)
    → Mem kv registry
unfolding remove
Mem-remove key kv [] m = m
Mem-remove key kv ((name, i) ∷ registry) m = elim (Bool-cases (str_eq name key)) [
  | inl e ↦
      let rest : remove str_eq key ((name, i) ∷ registry) ≡ registry = ground (arith, e) in
      inr (subst (Mem kv) rest m)
  | inr e ↦
      let rest : remove str_eq key ((name, i) ∷ registry) ≡ (name, i) ∷ remove str_eq key registry =
        ground (arith, e) in
      elim (subst (Mem kv) rest m) [
        | inl q ↦ inl q
        | inr later ↦ inr (Mem-remove key kv registry later)
      ]
]
