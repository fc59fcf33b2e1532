-- ===== src/Cookies/Home.antt =====
-- A cookie that states no path goes back to the page that set it.
use eazy_sdk.Prelude.{◌≡◌, sym, Bool, true, false, Option, some, is_some, arith}
use eazy_sdk.Cookies.Chars.{Text, starts_with}
use eazy_sdk.Cookies.Parse.{Attributes, attribute}
use eazy_sdk.Cookies.Match.{slash, scope, belongs, path_matches}
use eazy_sdk.Cookies.Belongs.{
  path_matches-UnderPath, belongs-Carries, Private, default_path-matches,
}
use eazy_sdk.Cookies.Jar.{
  attribute_or_empty, domain_name, path_name, secure_name, cookie_path, cookie_of,
}
use eazy_sdk.Cookies.{Platform, DateTime, Target}
use eazy_sdk.Cookies.Origin.{scope_of-IsOwn}

cookie_path-matches :
    (t : Target) (attributes : Attributes)
    → starts_with slash t.path ≡ true
    → starts_with slash (attribute_or_empty path_name attributes) ≡ false
    → path_matches t.path (cookie_path t attributes) ≡ true
unfolding cookie_path
cookie_path-matches t attributes s n = ground (arith, n, default_path-matches t.path s)

-- The cookie of a line that names no path, wherever the line may set it, belongs to a request for
-- the address that answered, if this is secure where the cookie is: its host, its path and its
-- scheme suit the domain and the path that the jar stores.
pub cookie_of-belongs :
    (p : Platform) (public_suffixes : Option (Text → Bool)) (t : Target) (name value : Text)
    (attributes : Attributes) (place : Text × Bool) (expires_at : Option DateTime)
    → starts_with slash t.path ≡ true
    → scope p public_suffixes t.host (attribute_or_empty domain_name attributes) ≡ some place
    → starts_with slash (attribute_or_empty path_name attributes) ≡ false
    → (is_some (attribute secure_name attributes) ≡ true → Private t)
    → belongs p (cookie_of p t name value attributes place expires_at) t ≡ true
unfolding scope cookie_of
cookie_of-belongs p public_suffixes t name value attributes place expires_at s at n safe =
    let own = scope_of-IsOwn p public_suffixes t.host _ place at in
    (belongs-Carries p (cookie_of p t name value attributes place expires_at) t).1 record {
      own_host = λ o. sym (own.own_host o);
      under_domain = λ o. own.under_domain;
      safe = safe;
      under_path = (path_matches-UnderPath t.path _).0 (cookie_path-matches t attributes s n);
    }
