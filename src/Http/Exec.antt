-- ===== src/Http/Exec.antt =====
-- Coroutines of the executor: they read and write a world `W` (the network, the clock, the caches
-- and sessions of the client) and may raise. What was written before a raise stays written.
use eazy_sdk.Prelude.{◌≡◌, refl, Bool, true, false, if◌then◌else◌}
use eazy_sdk.Http.Failure.{Result, ok, err}

abbrev pub Exec : Type 0 → Type 0 → Type 0
Exec W A = W → Result A × W

module _ {W A : Type 0} where
  unfoldable pub pure : A → Exec W A
  pure a w = (ok a, w)

  unfoldable pub lift : Result A → Exec W A
  lift r w = (r, w)

  unfoldable pub gets : (W → A) → Exec W A
  gets f w = (ok (f w), w)

unfoldable pub modify : {W : Type 0} → (W → W) → Exec W (Unit {0})
modify f w = (ok tt, f w)

module _ {W A B : Type 0} where
  abbrev pub resume : Result A × W → (A → Exec W B) → Result B × W
  resume (ok a, w) f = f a w
  resume (err e, w) f = (err e, w)

  infixl 5 ◌>>=◌ ◌>>◌
  unfoldable pub ◌>>=◌ : Exec W A → (A → Exec W B) → Exec W B
  ◌>>=◌ m f w = resume (m w) f

  unfoldable pub ◌>>◌ : Exec W A → Exec W B → Exec W B
  ◌>>◌ m k w = resume (m w) (λ _. k)

-- Every value that `m` returns has the property; what it raises is left open.
abbrev pub OnOk : {A : Type 0} → (A → Type 0) → Result A → Type 0
OnOk Q (ok a) = Q a
OnOk Q (err e) = Unit

pub record Returns {W A : Type 0} (Q : A → Type 0) (m : Exec W A) : Type 0 where
  pub at : (w : W) → OnOk Q (m w).0

OnOk-Unit : {A : Type 0} (r : Result A) → OnOk (λ _. Unit) r
OnOk-Unit (ok a) = tt
OnOk-Unit (err e) = tt

module _ {W A : Type 0} where
  pub Returns-pure : (Q : A → Type 0) (a : A) → Q a → Returns {W = W} Q (pure a)
  unfolding pure
  Returns-pure Q a q = record { at = λ w. q }

  pub Returns-lift : (Q : A → Type 0) (r : Result A) → OnOk Q r → Returns {W = W} Q (lift r)
  unfolding lift
  Returns-lift Q r q = record { at = λ w. q }

  pub Returns-any : (m : Exec W A) → Returns (λ _. Unit) m
  Returns-any m = record { at = λ w. OnOk-Unit (m w).0 }

  pub Returns-if :
      (Q : A → Type 0) (b : Bool) (m n : Exec W A)
      → Returns Q m
      → Returns Q n
      → Returns Q (if b then m else n)
  Returns-if Q true m n hm hn = hm
  Returns-if Q false m n hm hn = hn

  -- What is read is read of some world.
  pub Returns-gets : (f : W → A) → Returns (λ a. (w : W) × (a ≡ f w)) (gets f)
  unfolding gets
  Returns-gets f = record { at = λ w. (w, refl) }

module _ {W A B : Type 0} where
  resume-OnOk :
      (R : A → Type 0) (Q : B → Type 0) (p : Result A × W) (f : A → Exec W B)
      → OnOk R p.0
      → ((a : A) → R a → Returns Q (f a))
      → OnOk Q (resume p f).0
  resume-OnOk R Q (ok a, w) f r k = (k a r).at w
  resume-OnOk R Q (err e, w) f r k = tt

  pub Returns-bind :
      (R : A → Type 0) (Q : B → Type 0) (m : Exec W A) (f : A → Exec W B)
      → Returns R m
      → ((a : A) → R a → Returns Q (f a))
      → Returns Q (m >>= f)
  unfolding ◌>>=◌
  Returns-bind R Q m f r k = record { at = λ w. resume-OnOk R Q (m w) f (r.at w) k }

  -- Where nothing has to be known of the first result.
  pub Returns-then :
      (Q : B → Type 0) (m : Exec W A) (f : A → Exec W B)
      → ((a : A) → Returns Q (f a))
      → Returns Q (m >>= f)
  Returns-then Q m f k = Returns-bind (λ _. Unit) Q m f (Returns-any m) (λ a _. k a)

  pub Returns-seq :
      (R : Type 0) (Q : B → Type 0) (m : Exec W A) (k : Exec W B)
      → Returns (λ _. R) m
      → (R → Returns Q k)
      → Returns Q (m >> k)
  unfolding ◌>>◌
  Returns-seq R Q m k r h = record {
    at = λ w. resume-OnOk (λ _. R) Q (m w) (λ _. k) (r.at w) (λ _ x. h x);
  }
