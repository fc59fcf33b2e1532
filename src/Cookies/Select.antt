-- ===== src/Cookies/Select.antt =====
-- What `select` returns: the live cookies of the jar that belong to the target, longer paths first.
use eazy_sdk.Prelude.{
  ℕ, ◌≤◌, ◌≡◌, refl, sym, ◌∙◌, ap, subst, Bool, true, false, not, some, List, [], ◌∷◌, leb, arith,
  inl, inr, ◌↔◌, Bool-cases, length,
}
use eazy_sdk.Dict.Sort.{Mem-sorted, Mem-filter, All-insert}
use eazy_sdk.Dict.{Mem, insert, sorted, filter}
use eazy_sdk.Cookies.Match.{belongs}
use eazy_sdk.Cookies.Jar.{Jar, values, keys, key_eq, drop, drop_expired, expired_keys, select}
use eazy_sdk.Cookies.Chars.{text_eq_refl}
use eazy_sdk.Dict.Distinct.{Distinct, remove_all-filter}
use eazy_sdk.Cookies.Belongs.{Carries, belongs-Carries}
use eazy_sdk.Prelude.{All}
use eazy_sdk.Cookies.{Platform, DateTime, StoredCookie, Key, is_expired, Target}

values-filter :
    (q : StoredCookie → Bool) (d : List (Key × StoredCookie))
    → values (filter (λ kv. q kv.1) d) ≡ filter q (values d)
unfolding values filter
values-filter q [] = refl
values-filter q ((k, c) ∷ d) = ground (arith, values-filter q d)

pub key_eq_refl : (k : Key) → key_eq k k ≡ true
unfolding key_eq
key_eq_refl (name, domain, path) =
    ground (arith, text_eq_refl name, text_eq_refl domain, text_eq_refl path)

-- With distinct keys exactly the expired cookies go.
pub drop_expired-filter :
    (now : DateTime) (jar : Jar)
    → Distinct key_eq jar.cookies
    → (drop_expired now jar).cookies ≡ filter (λ kv. not (is_expired kv.1 now)) jar.cookies
unfolding drop_expired drop expired_keys keys
drop_expired-filter now jar h =
    remove_all-filter key_eq (λ kv. is_expired kv.1 now) jar.cookies key_eq_refl h

abbrev longer_first : StoredCookie → StoredCookie → Bool
longer_first b a = leb (length a.path) (length b.path)

-- No path is longer than one that stands before it.
abbrev pub LongestFirst : List StoredCookie → Type 0
LongestFirst [] = Unit
LongestFirst (c ∷ cs) = All (λ d. length d.path ≤ length c.path) cs × LongestFirst cs

All-shorter :
    (m n : ℕ) (l : List StoredCookie)
    → m ≤ n
    → All (λ d. length d.path ≤ m) l
    → All (λ d. length d.path ≤ n) l
All-shorter m n [] le h = tt
All-shorter m n (d ∷ l) le h = (omega (arith, h.0), All-shorter m n l le h.1)

insert-LongestFirst :
    (x : StoredCookie) (l : List StoredCookie)
    → LongestFirst l
    → LongestFirst (insert longer_first x l)
unfolding insert
insert-LongestFirst x [] h = (tt, tt)
insert-LongestFirst x (y ∷ l) h = elim (Bool-cases (longer_first x y)) [
  | inl e ↦
      let le : length y.path ≤ length x.path = ground arith in
      ground (arith, All-shorter (length y.path) (length x.path) l le h.0)
  | inr e ↦
      let le : length x.path ≤ length y.path = ground arith in
      ground (
        arith,
        All-insert longer_first (λ d. length d.path ≤ length y.path) x l le h.0,
        insert-LongestFirst x l h.1,
      )
]

sorted-LongestFirst : (l : List StoredCookie) → LongestFirst (sorted longer_first l)
unfolding sorted
sorted-LongestFirst [] = tt
sorted-LongestFirst (x ∷ l) = insert-LongestFirst x (sorted longer_first l) (sorted-LongestFirst l)

pub live-Mem :
    (now : DateTime) (jar : Jar) (c : StoredCookie)
    → Distinct key_eq jar.cookies
    → Mem c (values (drop_expired now jar).cookies)
      ↔ (Mem c (values jar.cookies) × (is_expired c now ≡ false))
live-Mem now jar c h =
    let same : values (drop_expired now jar).cookies
        ≡ filter (λ d. not (is_expired d now)) (values jar.cookies) =
      ap values (drop_expired-filter now jar h)
      ∙ values-filter (λ d. not (is_expired d now)) jar.cookies in
    let pick = Mem-filter (λ d. not (is_expired d now)) c (values jar.cookies) in
    (
      λ m. let r = pick.0 (subst (Mem c) same m) in (r.0, ground (arith, r.1)),
      λ r. subst (Mem c) (sym same) (pick.1 (r.0, ground (arith, r.1))),
    )

-- In a jar with distinct keys `select` returns exactly the cookies that are stored, have not
-- expired and may go to the target by host, scheme and path, and those with longer paths stand
-- first.
pub select_exact :
    (p : Platform) (t : Target) (now : DateTime) (jar : Jar) (c : StoredCookie)
    → Distinct key_eq jar.cookies
    → (Mem c (select p (some t) now jar).0
        ↔ (Mem c (values jar.cookies) × (is_expired c now ≡ false) × Carries p c t))
      × LongestFirst (select p (some t) now jar).0
unfolding select
select_exact p t now jar c h =
    let live = drop_expired now jar in
    let sort = Mem-sorted longer_first c (filter (λ d. belongs p d t) (values live.cookies)) in
    let pick = Mem-filter (λ d. belongs p d t) c (values live.cookies) in
    let alive = live-Mem now jar c h in
    let carries = belongs-Carries p c t in
    (
      (
        λ m.
            let chosen = pick.0 (sort.0 m) in
            let stored = alive.0 chosen.0 in (stored.0, stored.1, carries.0 chosen.1),
        λ (m, e, k). sort.1 (pick.1 (alive.1 (m, e), carries.1 k)),
      ),
      sorted-LongestFirst (filter (λ d. belongs p d t) (values live.cookies)),
    )
