-- ===== src/Cookies/Belongs.antt =====
-- The cookies that a request carries, by RFC 6265, 5.1.3 and 5.1.4.
use eazy_sdk.Prelude.{
  ℕ, ◌≡◌, refl, sym, ◌∙◌, ap, subst, true, false, not, ◌&&◌, some, [], ◌∷◌, ◌++◌, if◌then◌else◌,
  arith, ◌⊎◌, inl, inr, ◌↔◌, Bool-cases, Option-cases,
}
use eazy_sdk.Cookies.Chars.{
  Text, text_eq, eq_of_text_eq, text_eq_refl, after_prefix, starts_with, ends_with, before_last,
}
use eazy_sdk.Cookies.Match.{
  slash, dot, domain_matches, path_matches, default_path, is_secure, belongs, one_of, https,
  loopback_hosts,
}
use eazy_sdk.Cookies.{Platform, StoredCookie, Target}
use eazy_sdk.Dict.{Mem}
use eazy_sdk.Prelude.{List}

ends_with-prefix :
    (suffix s : Text) → ends_with suffix s ≡ true → (front : Text) × (s ≡ front ++ suffix)
unfolding ends_with
ends_with-prefix suffix [] h = ([], sym (eq_of_text_eq suffix [] h))
ends_with-prefix suffix (x ∷ s) h = elim (Bool-cases (text_eq suffix (x ∷ s))) [
  | inl p ↦ ([], sym (eq_of_text_eq suffix (x ∷ s) p))
  | inr p ↦ let r = ends_with-prefix suffix s (ground arith) in (x ∷ r.0, ap (x ∷◌) r.1)
]

ends_with-append : (front suffix : Text) → ends_with suffix (front ++ suffix) ≡ true
unfolding ends_with
ends_with-append [] [] = refl
ends_with-append [] (x ∷ s) = ground (arith, text_eq_refl (x ∷ s))
ends_with-append (x ∷ front) suffix = ground (arith, ends_with-append front suffix)

after_prefix-append : (p s rest : Text) → after_prefix p s ≡ some rest → s ≡ p ++ rest
unfolding after_prefix
after_prefix-append [] s rest h = ground arith
after_prefix-append (x ∷ p) [] rest h = ground arith
after_prefix-append (x ∷ p) (y ∷ s) rest h =
    let ih : s ≡ p ++ rest = after_prefix-append p s rest (ground arith) in ground arith

append-after_prefix : (p rest : Text) → after_prefix p (p ++ rest) ≡ some rest
unfolding after_prefix
append-after_prefix [] rest = refl
append-after_prefix (x ∷ p) rest = ground (arith, append-after_prefix p rest)

starts_with-cons : (c : ℕ) (s : Text) → starts_with c s ≡ true → (rest : Text) × (s ≡ c ∷ rest)
unfolding starts_with
starts_with-cons c [] h = ground arith
starts_with-cons c (x ∷ s) h = (s, ground arith)

starts_with_refl : (c : ℕ) (s : Text) → starts_with c (c ∷ s) ≡ true
unfolding starts_with
starts_with_refl c s = ground arith

-- The host is the domain, or a name under it and no address.
abbrev pub UnderDomain : Platform → Text → Text → Type 0
UnderDomain p host domain =
    (host ≡ domain) ⊎ ((front : Text) × (host ≡ front ++ dot ∷ domain) × (p.is_ip host ≡ false))

-- The path is the request's, or a prefix of it that ends on a segment boundary.
abbrev pub UnderPath : Text → Text → Type 0
UnderPath request path =
    (request ≡ path)
    ⊎ (((rest : Text) × (request ≡ path ++ slash ∷ rest))
        ⊎ ((directory rest : Text) × (path ≡ directory ++ slash ∷ []) × (request ≡ path ++ rest)))

pub domain_matches-UnderDomain :
    (p : Platform) (host domain : Text)
    → (domain_matches p host domain ≡ true) ↔ UnderDomain p host domain
unfolding domain_matches
domain_matches-UnderDomain p host domain = (there, back)
  where
    there :
        (if text_eq host domain then true else ends_with (dot ∷ domain) host && not (p.is_ip host))
          ≡ true
        → UnderDomain p host domain
    there h = elim (Bool-cases (text_eq host domain)) [
      | inl e ↦ inl (eq_of_text_eq host domain e)
      | inr e ↦
          let r = ends_with-prefix (dot ∷ domain) host (ground arith) in
          inr (r.0, r.1, ground arith)
    ]

    back :
        UnderDomain p host domain
        → (if text_eq host domain
            then true
            else ends_with (dot ∷ domain) host && not (p.is_ip host))
          ≡ true
    back (inl e) = ground (arith, subst (λ z. text_eq host z ≡ true) e (text_eq_refl host))
    back (inr (front, e, ip)) = ground (
      arith,
      subst (λ z. ends_with (dot ∷ domain) z ≡ true) (sym e)
          (ends_with-append front (dot ∷ domain)),
    )

pub path_matches-UnderPath :
    (request path : Text) → (path_matches request path ≡ true) ↔ UnderPath request path
unfolding path_matches
path_matches-UnderPath request path = (there, back)
  where
    there : path_matches request path ≡ true → UnderPath request path
    there h = elim (Bool-cases (text_eq request path)) [
      | inl e ↦ inl (eq_of_text_eq request path e)
      | inr e ↦ elim (Option-cases (after_prefix path request)) [
        | inl n ↦ ground arith
        | inr (rest, r) ↦
            let split : request ≡ path ++ rest = after_prefix-append path request rest r in
            elim (Bool-cases (ends_with (slash ∷ []) path)) [
              | inl s ↦
                  let d = ends_with-prefix (slash ∷ []) path s in inr (inr (d.0, rest, d.1, split))
              | inr s ↦
                  let d = starts_with-cons slash rest (ground arith) in
                  inr (inl (d.0, split ∙ ap (path ++◌) d.1))
            ]
      ]
    ]

    back : UnderPath request path → path_matches request path ≡ true
    back (inl e) = ground (arith, subst (λ z. text_eq request z ≡ true) e (text_eq_refl request))
    back (inr (inl (rest, e))) =
        let found : after_prefix path request ≡ some (slash ∷ rest) =
          subst (λ z. after_prefix path z ≡ some (slash ∷ rest)) (sym e)
            (append-after_prefix path (slash ∷ rest)) in
        ground (arith, starts_with_refl slash rest)
    back (inr (inr (directory, rest, d, e))) =
        let found : after_prefix path request ≡ some rest =
          subst (λ z. after_prefix path z ≡ some rest) (sym e) (append-after_prefix path rest) in
        let ends : ends_with (slash ∷ []) path ≡ true =
          subst (λ z. ends_with (slash ∷ []) z ≡ true) (sym d)
            (ends_with-append directory (slash ∷ [])) in
        ground arith

-- A connection that nobody else reads: over `https`, or to the machine itself.
abbrev pub Private : Target → Type 0
Private t = (t.scheme ≡ https) ⊎ Mem t.host loopback_hosts

one_of-Mem : (s : Text) (l : List Text) → (one_of s l ≡ true) ↔ Mem s l
unfolding one_of
one_of-Mem s [] = (λ h. ground (arith, h), λ h. elim h [ ])
one_of-Mem s (t ∷ l) = (
  λ h. elim (Bool-cases (text_eq s t)) [
    | inl e ↦ inl (eq_of_text_eq s t e)
    | inr e ↦ inr ((one_of-Mem s l).0 (ground (arith, h, e)))
  ],
  λ h. elim h [
    | inl e ↦
        let same : text_eq s t ≡ true = subst (λ z. text_eq s z ≡ true) e (text_eq_refl s) in
        ground (arith, same)
    | inr m ↦ ground (arith, (one_of-Mem s l).1 m)
  ],
)

pub is_secure-Private : (t : Target) → (is_secure t ≡ true) ↔ Private t
unfolding is_secure
is_secure-Private t = (
  λ h. elim (Bool-cases (text_eq t.scheme https)) [
    | inl e ↦ inl (eq_of_text_eq t.scheme https e)
    | inr e ↦ inr ((one_of-Mem t.host loopback_hosts).0 (ground (arith, h, e)))
  ],
  λ h. elim h [
    | inl e ↦
        let same : text_eq t.scheme https ≡ true =
          subst (λ z. text_eq z https ≡ true) (sym e) (text_eq_refl https) in
        ground (arith, same)
    | inr m ↦ ground (arith, (one_of-Mem t.host loopback_hosts).1 m)
  ],
)

-- Where a cookie may go.
pub record Carries (p : Platform) (c : StoredCookie) (t : Target) : Type 0 where
  pub own_host : c.host_only ≡ true → t.host ≡ c.domain
  pub under_domain : c.host_only ≡ false → UnderDomain p t.host c.domain
  pub safe : c.secure ≡ true → Private t
  pub under_path : UnderPath t.path c.path

pub belongs-Carries :
    (p : Platform) (c : StoredCookie) (t : Target) → (belongs p c t ≡ true) ↔ Carries p c t
unfolding belongs
belongs-Carries p c t = (there, back)
  where
    there : belongs p c t ≡ true → Carries p c t
    there h = record {
      own_host = λ o. eq_of_text_eq t.host c.domain (ground arith);
      under_domain = λ o. (domain_matches-UnderDomain p t.host c.domain).0 (ground arith);
      safe = λ s. (is_secure-Private t).0 (ground arith);
      under_path = (path_matches-UnderPath t.path c.path).0 (ground arith);
    }

    back : Carries p c t → belongs p c t ≡ true
    back k =
        let path : path_matches t.path c.path ≡ true =
          (path_matches-UnderPath t.path c.path).1 k.under_path in
        let safe : c.secure ≡ true → is_secure t ≡ true = λ s. (is_secure-Private t).1 (k.safe s) in
        elim (Bool-cases c.host_only) [
          | inl o ↦
              let host : text_eq t.host c.domain ≡ true =
                subst (λ z. text_eq t.host z ≡ true) (k.own_host o) (text_eq_refl t.host) in
              ground (arith, safe)
          | inr o ↦
              let host : domain_matches p t.host c.domain ≡ true =
                (domain_matches-UnderDomain p t.host c.domain).1 (k.under_domain o) in
              ground (arith, safe)
        ]

before_last-split :
    (c : ℕ) (s front : Text)
    → before_last c s ≡ some front
    → (rest : Text) × (s ≡ front ++ c ∷ rest)
unfolding before_last
before_last-split c [] front h = ground arith
before_last-split c (x ∷ s) front h = elim (Option-cases (before_last c s)) [
  | inl n ↦ (s, ground arith)
  | inr (inner, d) ↦
      let (rest, e) = before_last-split c s inner d in
      let front' : x ∷ inner ≡ front = ground arith in
      (rest, ap (x ∷◌) e ∙ ap (◌++ c ∷ rest) front')
]

-- A path that starts with a slash lies under its default path.
pub default_path-matches :
    (request : Text)
    → starts_with slash request ≡ true
    → path_matches request (default_path request) ≡ true
unfolding default_path
default_path-matches request h =
    let (rest, e) = starts_with-cons slash request h in
    let root : path_matches request (slash ∷ []) ≡ true =
      (path_matches-UnderPath request (slash ∷ [])).1 (inr (inr ([], rest, refl, e))) in
    elim (Option-cases (before_last slash request)) [
      | inl n ↦ ground arith
      | inr (directory, d) ↦
          let (last, split) = before_last-split slash request directory d in
          let deep : path_matches request directory ≡ true =
            (path_matches-UnderPath request directory).1 (inr (inl (last, split))) in
          ground arith
    ]
