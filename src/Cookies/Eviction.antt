-- ===== src/Cookies/Eviction.antt =====
-- `_evict` keeps the limits of a jar.
use eazy_sdk.Prelude.{
  ℕ, suc, ◌+◌, ◌-◌, ◌≤◌, ◌≡◌, refl, ap, subst, Bool, true, Option, none, some, List, [], ◌∷◌, leb,
  arith, inl, inr, Option-cases, length, take, All,
}
use eazy_sdk.Dict.{Mem, sorted}
use eazy_sdk.Dict.Distinct.{Absent, Distinct}
use eazy_sdk.Cookies.Chars.{Text, eq_of_text_eq}
use eazy_sdk.Cookies.{Key, StoredCookie, DateTime, Platform, Target}
use eazy_sdk.Cookies.Jar.{
  Jar, keys, key_eq, drop, drop_least_used, trim_all, evict, store_line, store_lines, merge, store,
  load, last_use, max_cookies,
}
use eazy_sdk.Cookies.Select.{key_eq_refl}
use eazy_sdk.Dict.Sort.{Mem-sorted}
use eazy_sdk.Cookies.Counting.{
  NoRepeat, sorted-NoRepeat, length-sorted, take-NoRepeat, length-take, length-remove_all,
  true_or_false, Mem-take,
}
use eazy_sdk.Cookies.Holds.{drop_expired-Holds, trim_groups-Holds, merge-Holds}
use eazy_sdk.Cookies.Origin.{store_line-Holds}

key_eq-eq : (k name : Key) → key_eq k name ≡ true → k ≡ name
unfolding key_eq
key_eq-eq (n, d, p) (n', d', p') h =
    let e : n ≡ n' = eq_of_text_eq n n' (ground arith) in
    let f : d ≡ d' = eq_of_text_eq d d' (ground arith) in
    let g : p ≡ p' = eq_of_text_eq p p' (ground arith) in ground arith

Absent-Mem : (k : Key) (d : List (Key × StoredCookie)) → Absent key_eq k d → Mem k (keys d) → ⊥
unfolding keys
Absent-Mem k [] a m = m
Absent-Mem k ((name, c) ∷ d) a (inl e) =
    true_or_false (key_eq k name) (subst (λ z. key_eq k z ≡ true) e (key_eq_refl k)) a.0
Absent-Mem k ((name, c) ∷ d) a (inr m) = Absent-Mem k d a.1 m

Distinct-NoRepeat : (d : List (Key × StoredCookie)) → Distinct key_eq d → NoRepeat (keys d)
unfolding keys
Distinct-NoRepeat [] h = tt
Distinct-NoRepeat ((k, c) ∷ d) h = (Absent-Mem k d h.0, Distinct-NoRepeat d h.1)

length-keys : (d : List (Key × StoredCookie)) → length (keys d) ≡ length d
unfolding keys
length-keys [] = refl
length-keys (x ∷ d) = ap suc (length-keys d)

-- The excess goes, and nothing else.
drop_least_used-length :
    (ks : List Key) (excess : ℕ) (jar : Jar)
    → NoRepeat ks
    → ((k : Key) → Mem k ks → Mem k (keys jar.cookies))
    → excess ≤ length ks
    → length (drop_least_used ks excess jar).cookies + excess ≡ length jar.cookies
unfolding drop_least_used drop keys
drop_least_used-length ks excess jar n h le =
    let order = λ (a b : Key). leb (last_use jar a) (last_use jar b) in
    let gone = take excess (sorted order ks) in
    let total =
      length-remove_all key_eq key_eq-eq key_eq_refl gone jar.cookies
        (take-NoRepeat excess (sorted order ks) (sorted-NoRepeat order ks n))
        λ k m. h k ((Mem-sorted order k ks).0 (Mem-take excess k (sorted order ks) m)) in
    omega (
      arith,
      total,
      length-take excess (sorted order ks) (omega (arith, length-sorted order ks, le)),
    )

trim_all-length :
    (jar : Jar) → Distinct key_eq jar.cookies → length (trim_all jar).cookies ≤ max_cookies
unfolding trim_all
trim_all-length jar h =
    let n =
      drop_least_used-length (keys jar.cookies) (length jar.cookies - max_cookies) jar
        (Distinct-NoRepeat jar.cookies h) (λ k m. m) (omega (arith, length-keys jar.cookies)) in
    omega (arith, n)

abbrev Whatever : StoredCookie → Type 0
Whatever c = Unit

All-Whatever : (d : List (Key × StoredCookie)) → All (λ kv. Whatever kv.1) d
All-Whatever [] = tt
All-Whatever (x ∷ d) = (tt, All-Whatever d)

All-Whatever_cookies : (cs : List StoredCookie) → All Whatever cs
All-Whatever_cookies [] = tt
All-Whatever_cookies (c ∷ cs) = (tt, All-Whatever_cookies cs)

evict-length :
    (now : DateTime) (jar : Jar)
    → Distinct key_eq jar.cookies
    → length (evict now jar).cookies ≤ max_cookies
unfolding evict
evict-length now jar d =
    let live =
      drop_expired-Holds Whatever now jar
        (record { distinct = d; every = All-Whatever jar.cookies }) in
    trim_all-length _ (trim_groups-Holds Whatever _ _ live).distinct

store_lines-length :
    (p : Platform) (public_suffixes : Option (Text → Bool)) (t : Target) (now : DateTime)
    (lines : List Text) (jar : Jar)
    → Distinct key_eq jar.cookies
    → (store_lines p public_suffixes t now lines jar).1 ≡ none
    → length (store_lines p public_suffixes t now lines jar).0.cookies ≤ max_cookies
unfolding store_lines
store_lines-length p public_suffixes t now [] jar d e = evict-length now jar d
store_lines-length p public_suffixes t now (line ∷ lines) jar d e =
    let left = store_line p public_suffixes t now line jar in
    let held =
      store_line-Holds p public_suffixes t now Whatever (λ c o. tt) line jar
        (record { distinct = d; every = All-Whatever jar.cookies }) in
    elim (Option-cases left.1) [
      | inl n ↦
          ground (arith, store_lines-length p public_suffixes t now lines left.0 held.distinct)
      | inr (x, s) ↦ ground arith
    ]

-- A jar with distinct keys holds at most `MAX_COOKIES` cookies after lines are stored without an
-- exception, and after a snapshot is loaded.
pub limit_kept :
    (p : Platform) (public_suffixes : Option (Text → Bool)) (t : Target) (now : DateTime)
    (lines : List Text) (state : List StoredCookie) (jar : Jar)
    → Distinct key_eq jar.cookies
    → (store p public_suffixes (some t) now lines jar).1 ≡ none
    → (length (store p public_suffixes (some t) now lines jar).0.cookies ≤ max_cookies)
      × (length (load now state jar).cookies ≤ max_cookies)
unfolding store load
limit_kept p public_suffixes t now lines state jar d e =
    let merged =
      merge-Holds Whatever now state jar (All-Whatever_cookies state)
        (record { distinct = d; every = All-Whatever jar.cookies }) in
    (
      store_lines-length p public_suffixes t now lines jar d e,
      evict-length now (merge now state jar) merged.distinct,
    )
