-- ===== src/Cookies/Match.antt =====
-- Where a cookie belongs: `_domain_matches`, `_default_path`, `_path_matches`, `_scope` and
-- `CookieJar._belongs` of eazy_sdk/cookies.py.
use eazy_sdk.Prelude.{
  ℕ, Bool, true, false, not, ◌&&◌, ◌||◌, Option, none, some, List, [], ◌∷◌, ◌==◌, if◌then◌else◌,
  elem,
}
use eazy_sdk.Cookies.Chars.{
  Text, text_eq, after_prefix, starts_with, ends_with, count, before_last, lstrip, rstrip, strip,
}
use eazy_sdk.Cookies.Parse.{no_text}
use eazy_sdk.Cookies.{Platform, StoredCookie, Target}

abbrev pub slash : ℕ
slash = b'/'

abbrev pub dot : ℕ
dot = b'.'

-- `_domain_matches`
unfoldable pub domain_matches : Platform → Text → Text → Bool
unfolding ends_with
domain_matches p host domain =
    if text_eq host domain then true else ends_with (dot ∷ domain) host && not (p.is_ip host)

-- `_default_path`
unfoldable pub default_path : Text → Text
unfolding starts_with count before_last
default_path request =
    if not (starts_with slash request) || count slash request == 1
    then slash ∷ []
    else elim (before_last slash request) [
      | none ↦ slash ∷ []  -- not reached: the text starts with a slash
      | some directory ↦ directory
    ]

-- `_path_matches`; the prefix is not the whole path, so a character stands behind it.
unfoldable pub path_matches : Text → Text → Bool
unfolding after_prefix ends_with starts_with
path_matches request path =
    if text_eq request path then true else elim (after_prefix path request) [
      | none ↦ false
      | some rest ↦ ends_with (slash ∷ []) path || starts_with slash rest
    ]

-- The optional suffix list, or the test for a single label.
unfoldable pub is_suffix : Option (Text → Bool) → Text → Bool
is_suffix none domain = not (elem dot domain)
is_suffix (some test) domain = test domain

-- `_scope` of the domain that the attribute names.
unfoldable pub scope_of : Platform → Option (Text → Bool) → Text → Text → Option (Text × Bool)
unfolding is_suffix
scope_of p public_suffixes host domain =
    if no_text domain || text_eq domain host
    then some (host, no_text domain)
    else if is_suffix public_suffixes domain || not (domain_matches p host domain)
    then none
    else some (domain, false)

abbrev is_dot : ℕ → Bool
is_dot c = c == dot

-- `_scope`
unfoldable pub scope : Platform → Option (Text → Bool) → Text → Text → Option (Text × Bool)
unfolding strip lstrip rstrip
scope p public_suffixes host text =
    scope_of p public_suffixes host (rstrip is_dot (p.lower (lstrip is_dot (strip text))))

-- `"https"`
abbrev pub https : Text
https = b'h' ∷ b't' ∷ b't' ∷ b'p' ∷ b's' ∷ []

-- `_LOOPBACK_HOSTS`: `localhost`, `127.0.0.1` and `::1`.
abbrev pub loopback_hosts : List Text
loopback_hosts =
    (b'l' ∷ b'o' ∷ b'c' ∷ b'a' ∷ b'l' ∷ b'h' ∷ b'o' ∷ b's' ∷ b't' ∷ [])
    ∷ (b'1' ∷ b'2' ∷ b'7' ∷ b'.' ∷ b'0' ∷ b'.' ∷ b'0' ∷ b'.' ∷ b'1' ∷ [])
    ∷ (b':' ∷ b':' ∷ b'1' ∷ [])
    ∷ []

unfoldable pub one_of : Text → List Text → Bool
one_of s [] = false
one_of s (t ∷ l) = text_eq s t || one_of s l

-- `_Target.is_secure`
unfoldable pub is_secure : Target → Bool
unfolding one_of
is_secure t = text_eq t.scheme https || one_of t.host loopback_hosts

-- `CookieJar._belongs`
unfoldable pub belongs : Platform → StoredCookie → Target → Bool
unfolding is_secure
belongs p c t =
    if c.host_only && not (text_eq t.host c.domain)
    then false
    else if not c.host_only && not (domain_matches p t.host c.domain)
    then false
    else if c.secure && not (is_secure t)
    then false
    else path_matches t.path c.path
