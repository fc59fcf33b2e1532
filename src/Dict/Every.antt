-- ===== src/Dict/Every.antt =====
-- What holds of every value of a `dict`, and stays so.
use eazy_sdk.Prelude.{refl, sym, subst, Bool, List, [], ◌∷◌, arith, inl, inr, Bool-cases, All}
use eazy_sdk.Dict.{Mem, put, remove, remove_all}

pub put-All :
    {K V : Type 0} (same : K → K → Bool) (P : V → Type 0) (k : K) (v : V) (d : List (K × V))
    → P v
    → All (λ kv. P kv.1) d
    → All (λ kv. P kv.1) (put same k v d)
unfolding put
put-All same P k v [] h a = (h, tt)
put-All same P k v ((name, old) ∷ d) h a = elim (Bool-cases (same name k)) [
  | inl e ↦ ground (arith, h, a.1)
  | inr e ↦ ground (arith, a.0, put-All same P k v d h a.1)
]

pub remove-All :
    {K V : Type 0} (same : K → K → Bool) (P : V → Type 0) (k : K) (d : List (K × V))
    → All (λ kv. P kv.1) d
    → All (λ kv. P kv.1) (remove same k d)
unfolding remove
remove-All same P k [] a = tt
remove-All same P k ((name, old) ∷ d) a = elim (Bool-cases (same name k)) [
  | inl e ↦ ground (arith, a.1)
  | inr e ↦ ground (arith, a.0, remove-All same P k d a.1)
]

pub remove_all-All :
    {K V : Type 0} (same : K → K → Bool) (P : V → Type 0) (ks : List K) (d : List (K × V))
    → All (λ kv. P kv.1) d
    → All (λ kv. P kv.1) (remove_all same ks d)
unfolding remove_all
remove_all-All same P [] d a = a
remove_all-All same P (k ∷ ks) d a =
    remove_all-All same P ks (remove same k d) (remove-All same P k d a)

pub All_at : {A : Type 0} (P : A → Type 0) (l : List A) (a : A) → All P l → Mem a l → P a
All_at P [] a h m = elim m [ ]
All_at P (x ∷ l) a h m = elim m [ inl e ↦ subst P (sym e) h.0 | inr later ↦ All_at P l a h.1 later ]

pub All-of : {A : Type 0} (P : A → Type 0) (l : List A) → ((x : A) → Mem x l → P x) → All P l
All-of P [] h = tt
All-of P (x ∷ l) h = (h x (inl refl), All-of P l (λ y m. h y (inr m)))
