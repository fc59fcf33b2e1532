-- ===== src/Cookies/Origin.antt =====
-- A site sets cookies only where its host is.
use eazy_sdk.Prelude.{
  ◌≡◌, sym, ap, subst, Bool, true, false, not, ◌||◌, Option, none, some, List, [], ◌∷◌, arith, ◌⊎◌,
  inl, inr, ◌↔◌, Bool-cases, Option-cases, All, elem,
}
use eazy_sdk.Dict.Every.{All-of}
use eazy_sdk.Dict.{Mem}
use eazy_sdk.Dict.Distinct.{Distinct}
use eazy_sdk.Cookies.Chars.{Text, text_eq}
use eazy_sdk.Cookies.Parse.{Attributes, Expiry, keeps, removes, breaks, expiry, parse, no_text}
use eazy_sdk.Cookies.Match.{scope, scope_of, is_suffix, domain_matches, dot}
use eazy_sdk.Cookies.Belongs.{UnderDomain, domain_matches-UnderDomain}
use eazy_sdk.Cookies.Jar.{
  accepts_cookie, keep_new, Jar, values, key_eq, cookie_of, settle_line, store_line, store_lines,
  store, attribute_or_empty, domain_name,
}
use eazy_sdk.Cookies.{Platform, DateTime, StoredCookie, Key, Target}
use eazy_sdk.Cookies.Holds.{Holds, drop-Holds, keep-Holds, evict-Holds}

-- A place for a cookie of the host: the host or a domain that it is under, the host alone if
-- `host_only`, and no other domain that is a public suffix: one that the list names or, without a
-- list, one of a single label.
pub record IsOwn (p : Platform) (public_suffixes : Option (Text → Bool)) (host domain : Text)
    (host_only : Bool) : Type 0 where
  pub own_host : host_only ≡ true → domain ≡ host
  pub under_domain : UnderDomain p host domain
  pub no_suffix :
      (test : Text → Bool) → public_suffixes ≡ some test → (domain ≡ host) ⊎ (test domain ≡ false)
  pub no_label : public_suffixes ≡ none → (domain ≡ host) ⊎ (elem dot domain ≡ true)

suffix_of_test :
    (public_suffixes : Option (Text → Bool)) (test : Text → Bool) (domain : Text)
    → public_suffixes ≡ some test
    → is_suffix public_suffixes domain ≡ false
    → test domain ≡ false
unfolding is_suffix
suffix_of_test none test domain e h = ground arith
suffix_of_test (some other) test domain e h =
    ground (arith, ap (λ (o : Option (Text → Bool)). is_suffix o domain) e)

dot_of_none :
    (public_suffixes : Option (Text → Bool)) (domain : Text)
    → public_suffixes ≡ none
    → is_suffix public_suffixes domain ≡ false
    → elem dot domain ≡ true
unfolding is_suffix
dot_of_none none domain e h = ground (arith, h)
dot_of_none (some test) domain e h = absurd (ground (arith, e))

pub scope_of-IsOwn :
    (p : Platform) (public_suffixes : Option (Text → Bool)) (host domain : Text)
    (place : Text × Bool)
    → scope_of p public_suffixes host domain ≡ some place
    → IsOwn p public_suffixes host place.0 place.1
unfolding scope_of
scope_of-IsOwn p public_suffixes host domain (name, only) h =
    elim (Bool-cases (no_text domain || text_eq domain host)) [
      | inl e ↦
          let at : name ≡ host = ground arith in
          record {
            own_host = λ o. at;
            under_domain = inl (sym at);
            no_suffix = λ test s. inl at;
            no_label = λ s. inl at;
          }
      | inr e ↦
          elim (Bool-cases
            (is_suffix public_suffixes domain || not (domain_matches p host domain))) [
              | inl s ↦ ground arith
              | inr s ↦
                  let at : domain ≡ name = ground arith in
                  let only' : only ≡ false = ground arith in
                  let under : UnderDomain p host domain =
                    (domain_matches-UnderDomain p host domain).0 (ground arith) in
                  record {
                    own_host = λ o. ground arith;
                    under_domain = subst (UnderDomain p host) at under;
                    no_suffix = λ test q. inr (
                        subst (λ z. test z ≡ false) at
                          (suffix_of_test public_suffixes test domain q (ground arith)));
                    no_label = λ q. inr (
                        subst (λ z. elem dot z ≡ true) at
                          (dot_of_none public_suffixes domain q (ground arith)));
                  }
            ]
    ]

module _ (p : Platform) (public_suffixes : Option (Text → Bool)) (t : Target) (now : DateTime)
    (P : StoredCookie → Type 0)
    (own : (c : StoredCookie) → IsOwn p public_suffixes t.host c.domain c.host_only → P c) where
  keep_new-Holds : (jar : Jar) (c : StoredCookie) → P c → Holds P jar → Holds P (keep_new p jar c).0
  unfolding keep_new
  keep_new-Holds jar c pc h = elim (Bool-cases (accepts_cookie p c)) [
    | inl e ↦ ground (arith, keep-Holds P jar c pc h)
    | inr e ↦ ground (arith, h)
  ]

  settle_line-Holds :
      (jar : Jar) (name value : Text) (attributes : Attributes) (place : Text × Bool) (e : Expiry)
      → IsOwn p public_suffixes t.host place.0 place.1
      → Holds P jar
      → Holds P (settle_line p t jar name value attributes place e).0
  unfolding settle_line cookie_of
  settle_line-Holds jar name value attributes place removes o h = drop-Holds P _ jar h
  settle_line-Holds jar name value attributes place (breaks e) o h = h
  settle_line-Holds jar name value attributes place (keeps expires_at) o h =
      keep_new-Holds jar (cookie_of p t name value attributes place expires_at) (own _ o) h

  pub store_line-Holds :
      (line : Text) (jar : Jar)
      → Holds P jar
      → Holds P (store_line p public_suffixes t now line jar).0
  unfolding store_line scope
  store_line-Holds line jar h = elim (Option-cases (parse p line)) [
    | inl n ↦ ground (arith, h)
    | inr ((name, value, attributes), e) ↦
        elim (Option-cases
          (scope p public_suffixes t.host (attribute_or_empty domain_name attributes))) [
            | inl n ↦ ground (arith, h)
            | inr (place, s) ↦
                let o = scope_of-IsOwn p public_suffixes t.host _ place s in
                ground (
                  arith,
                  settle_line-Holds jar name value attributes place (expiry p attributes now) o h,
                )
          ]
  ]

  pub store_lines-Holds :
      (lines : List Text) (jar : Jar)
      → Holds P jar
      → Holds P (store_lines p public_suffixes t now lines jar).0
  unfolding store_lines
  store_lines-Holds [] jar h = evict-Holds P now jar h
  store_lines-Holds (line ∷ lines) jar h =
      let left = store_line p public_suffixes t now line jar in
      let first = store_line-Holds line jar h in
      elim (Option-cases left.1) [
        | inl n ↦ ground (arith, store_lines-Holds lines left.0 first)
        | inr (e, s) ↦ ground (arith, first)
      ]

All-Mem : {A : Type 0} (P : A → Type 0) (c : A) (l : List A) → All P l → Mem c l → P c
All-Mem P c [] a m = elim m [ ]
All-Mem P c (x ∷ l) a (inl e) = subst P (sym e) a.0
All-Mem P c (x ∷ l) a (inr m) = All-Mem P c l a.1 m

All-values :
    (P : StoredCookie → Type 0) (d : List (Key × StoredCookie))
    → All (λ kv. P kv.1) d ↔ All P (values d)
unfolding values
All-values P [] = (λ a. a, λ a. a)
All-values P ((k, c) ∷ d) = (λ a. (a.0, (All-values P d).0 a.1), λ a. (a.0, (All-values P d).1 a.1))

-- Every cookie that is in a jar after the lines of a response are stored, whether or not a line
-- raised, was there before, or is for the host that answered or for a domain that this host is
-- under, and then for no public suffix but the host itself: a suffix that the list names or, where
-- there is no list, a domain of a single label.
pub store-IsOwn :
    (p : Platform) (public_suffixes : Option (Text → Bool)) (t : Target) (now : DateTime)
    (lines : List Text) (jar : Jar) (c : StoredCookie)
    → Distinct key_eq jar.cookies
    → Mem c (values (store p public_suffixes (some t) now lines jar).0.cookies)
    → Mem c (values jar.cookies) ⊎ IsOwn p public_suffixes t.host c.domain c.host_only
unfolding store
store-IsOwn p public_suffixes t now lines jar c d m =
    let P = λ (x : StoredCookie).
      Mem x (values jar.cookies) ⊎ IsOwn p public_suffixes t.host x.domain x.host_only in
    let before : Holds P jar = record {
      distinct = d;
      every = (All-values P jar.cookies).1 (All-of P (values jar.cookies) (λ x i. inl i));
    } in
    let after = store_lines-Holds p public_suffixes t now P (λ x o. inr o) lines jar before in
    All-Mem P c _ ((All-values P _).0 after.every) m
