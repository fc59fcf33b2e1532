-- ===== src/Cookies/Jar.antt =====
-- `CookieJar` of eazy_sdk/cookies.py. A method takes the moment that its clock gives and returns
-- the new jar; the lock makes each of them one step.
use eazy_sdk.Prelude.{
  ℕ, ◌+◌, ◌-◌, Bool, false, not, ◌&&◌, ◌||◌, Option, none, some, List, [], ◌∷◌, ◌++◌, map, leb,
  if◌then◌else◌, length, take, is_some,
}
use eazy_sdk.Cookies.Chars.{Text, text_eq, starts_with}
use eazy_sdk.Dict.{lookup, put, remove_all, sorted, filter}
use eazy_sdk.Cookies.Parse.{
  Attributes, attribute, parse, Expiry, keeps, removes, breaks, expiry, JarError,
}
use eazy_sdk.Cookies.Parse.{no_text, value_error}
use eazy_sdk.Cookies.Match.{dot, slash, default_path, scope, belongs}
use eazy_sdk.Cookies.{Platform, DateTime, StoredCookie, Key, key, is_expired, Target}

-- `MAX_COOKIES_PER_DOMAIN`
abbrev pub max_cookies_per_domain : ℕ
max_cookies_per_domain = 50

-- `MAX_COOKIES`
abbrev pub max_cookies : ℕ
max_cookies = 3000

pub record Jar : Type 0 where
  pub cookies : List (Key × StoredCookie)
  pub used : List (Key × ℕ)
  pub tick : ℕ

unfoldable pub key_eq : Key → Key → Bool
key_eq (name, domain, path) (name', domain', path') =
    text_eq name name' && text_eq domain domain' && text_eq path path'

-- `__init__` without a state.
unfoldable pub empty : Jar
empty = record { cookies = []; used = []; tick = 0 }

unfoldable pub values : List (Key × StoredCookie) → List StoredCookie
values cookies = map (λ (kv : Key × StoredCookie). kv.1) cookies

unfoldable pub keys : List (Key × StoredCookie) → List Key
keys cookies = map (λ (kv : Key × StoredCookie). kv.0) cookies

-- `_touch`
unfoldable pub touch : Jar → Key → Jar
unfolding put
touch jar k = record jar { used = put key_eq k (jar.tick + 1) jar.used; tick = jar.tick + 1 }

unfoldable pub touch_all : Jar → List Key → Jar
touch_all jar [] = jar
touch_all jar (k ∷ ks) = touch_all (touch jar k) ks

-- `_cookies.pop` and `_used.pop` of each key.
unfoldable pub drop : List Key → Jar → Jar
unfolding remove_all
drop ks jar = record jar {
  cookies = remove_all key_eq ks jar.cookies;
  used = remove_all key_eq ks jar.used;
}

-- The keys of the expired cookies.
unfoldable pub expired_keys : DateTime → List (Key × StoredCookie) → List Key
unfolding keys filter
expired_keys now cookies = keys (filter (λ kv. is_expired kv.1 now) cookies)

-- `_drop_expired`
unfoldable pub drop_expired : DateTime → Jar → Jar
drop_expired now jar = drop (expired_keys now jar.cookies) jar

-- `self._used.get(key, 0)`
unfoldable pub last_use : Jar → Key → ℕ
unfolding lookup
last_use jar k = elim (lookup key_eq k jar.used) [ none ↦ 0 | some n ↦ n ]

-- `_drop_least_used`; an excess of 0 stands for each that is not positive.
unfoldable pub drop_least_used : List Key → ℕ → Jar → Jar
unfolding sorted
drop_least_used ks excess jar =
    drop (take excess (sorted (λ a b. leb (last_use jar a) (last_use jar b)) ks)) jar

-- `by_domain.setdefault(domain, []).append(key)`
unfoldable pub file : Text → Key → List (Text × List Key) → List (Text × List Key)
file domain k [] = (domain, k ∷ []) ∷ []
file domain k ((name, ks) ∷ groups) =
    let rest = file domain k groups in
    if text_eq name domain then (name, ks ++ k ∷ []) ∷ groups else (name, ks) ∷ rest

unfoldable pub by_domain :
    List (Key × StoredCookie) → List (Text × List Key) → List (Text × List Key)
unfolding file
by_domain [] groups = groups
by_domain ((k, c) ∷ rest) groups = by_domain rest (file c.domain k groups)

unfoldable pub trim_groups : List (Text × List Key) → Jar → Jar
trim_groups [] jar = jar
trim_groups ((domain, ks) ∷ groups) jar =
    trim_groups groups (drop_least_used ks (length ks - max_cookies_per_domain) jar)

-- The last statement of `_evict`.
unfoldable pub trim_all : Jar → Jar
unfolding keys
trim_all jar = drop_least_used (keys jar.cookies) (length jar.cookies - max_cookies) jar

-- `_evict`
unfoldable pub evict : DateTime → Jar → Jar
unfolding by_domain
evict now jar =
    let live = drop_expired now jar in trim_all (trim_groups (by_domain live.cookies []) live)

-- The value of an attribute, or the empty text.
unfoldable pub attribute_or_empty : Text → Attributes → Text
attribute_or_empty name attributes = elim (attribute name attributes) [
  | none ↦ []
  | some text ↦ text
]

abbrev pub domain_name : Text
domain_name = b'd' ∷ b'o' ∷ b'm' ∷ b'a' ∷ b'i' ∷ b'n' ∷ []

abbrev pub path_name : Text
path_name = b'p' ∷ b'a' ∷ b't' ∷ b'h' ∷ []

abbrev pub secure_name : Text
secure_name = b's' ∷ b'e' ∷ b'c' ∷ b'u' ∷ b'r' ∷ b'e' ∷ []

abbrev http_only_name : Text
http_only_name = b'h' ∷ b't' ∷ b't' ∷ b'p' ∷ b'o' ∷ b'n' ∷ b'l' ∷ b'y' ∷ []

abbrev same_site_name : Text
same_site_name = b's' ∷ b'a' ∷ b'm' ∷ b'e' ∷ b's' ∷ b'i' ∷ b't' ∷ b'e' ∷ []

-- `_SAME_SITE`
abbrev same_sites : List (Text × Text)
same_sites =
    (b's' ∷ b't' ∷ b'r' ∷ b'i' ∷ b'c' ∷ b't' ∷ [], b'S' ∷ b't' ∷ b'r' ∷ b'i' ∷ b'c' ∷ b't' ∷ [])
    ∷ (b'l' ∷ b'a' ∷ b'x' ∷ [], b'L' ∷ b'a' ∷ b'x' ∷ [])
    ∷ (b'n' ∷ b'o' ∷ b'n' ∷ b'e' ∷ [], b'N' ∷ b'o' ∷ b'n' ∷ b'e' ∷ [])
    ∷ []

unfoldable pub same_site_of : Platform → Attributes → Text
unfolding attribute_or_empty lookup
same_site_of p attributes =
    elim (lookup text_eq (p.lower (attribute_or_empty same_site_name attributes)) same_sites) [
      | none ↦ []
      | some name ↦ name
    ]

-- The `Path` attribute, or the directory of the request.
unfoldable pub cookie_path : Target → Attributes → Text
unfolding attribute_or_empty
cookie_path t attributes =
    let path = attribute_or_empty path_name attributes in
    if starts_with slash path then path else default_path t.path

-- The cookie that a line sets.
unfoldable pub cookie_of :
    Platform → Target → Text → Text → Attributes → Text × Bool → Option DateTime → StoredCookie
unfolding same_site_of attribute
cookie_of p t name value attributes (domain, host_only) expires_at = record {
  name = name;
  value = value;
  domain = domain;
  path = cookie_path t attributes;
  host_only = host_only;
  expires_at = expires_at;
  secure = is_some (attribute secure_name attributes);
  http_only = is_some (attribute http_only_name attributes);
  same_site = same_site_of p attributes;
}

-- `self._cookies[key] = cookie` and `_touch`.
unfoldable pub keep : Jar → StoredCookie → Jar
unfolding key put
keep jar c = touch (record jar { cookies = put key_eq (key c) c jar.cookies }) (key c)

-- What a method leaves: the jar, and the exception that it raised.
abbrev pub Left : Type 0
Left = Jar × Option JarError

-- `StoredCookie.__post_init__`: `false` where it raises `ValueError`. A moment here has its zone.
unfoldable pub accepts_cookie : Platform → StoredCookie → Bool
accepts_cookie p c =
    not (no_text c.name)
    && not (no_text c.domain)
    && not (starts_with dot c.domain)
    && text_eq c.domain (p.lower c.domain)
    && starts_with slash c.path

-- A cookie is made and kept.
unfoldable pub keep_new : Platform → Jar → StoredCookie → Left
keep_new p jar c = if accepts_cookie p c then (keep jar c, none) else (jar, some value_error)

-- What a line does once its scope is known.
unfoldable pub settle_line :
    Platform → Target → Jar → Text → Text → Attributes → Text × Bool → Expiry → Left
settle_line p t jar name value attributes (domain, host_only) removes =
    (drop ((name, domain, cookie_path t attributes) ∷ []) jar, none)
settle_line p t jar name value attributes place (breaks e) = (jar, some e)
settle_line p t jar name value attributes place (keeps expires_at) =
    keep_new p jar (cookie_of p t name value attributes place expires_at)

-- `_store_line`
unfoldable pub store_line : Platform → Option (Text → Bool) → Target → DateTime → Text → Jar → Left
unfolding attribute_or_empty
store_line p public_suffixes t now line jar = elim (parse p line) [
  | none ↦ (jar, none)
  | some (name, value, attributes) ↦
      elim (scope p public_suffixes t.host (attribute_or_empty domain_name attributes)) [
        | none ↦ (jar, none)
        | some place ↦ settle_line p t jar name value attributes place (expiry p attributes now)
      ]
]

-- The loop of `store`: an exception leaves it before `_evict`.
unfoldable pub store_lines :
    Platform → Option (Text → Bool) → Target → DateTime → List Text → Jar → Left
store_lines p public_suffixes t now [] jar = (evict now jar, none)
store_lines p public_suffixes t now (line ∷ lines) jar =
    let left = store_line p public_suffixes t now line jar in
    elim left.1 [
      | some e ↦ (left.0, some e)
      | none ↦ store_lines p public_suffixes t now lines left.0
    ]

-- `store`
unfoldable pub store :
    Platform → Option (Text → Bool) → Option Target → DateTime → List Text → Jar → Left
store p public_suffixes none now lines jar = (jar, none)
store p public_suffixes (some t) now lines jar = store_lines p public_suffixes t now lines jar

-- `select`
unfoldable pub select : Platform → Option Target → DateTime → Jar → List StoredCookie × Jar
unfolding sorted filter
select p none now jar = ([], jar)
select p (some t) now jar =
    let live = drop_expired now jar in
    let chosen = filter (λ c. belongs p c t) (values live.cookies) in
    (sorted (λ a b. leb (length b.path) (length a.path)) chosen, touch_all live (map key chosen))

-- `has_live`, with the moment `clock() + leeway`.
unfoldable pub has_live : Text → DateTime → List (Key × StoredCookie) → Bool
has_live name horizon [] = false
has_live name horizon ((k, c) ∷ rest) =
    (text_eq c.name name && not (is_expired c horizon)) || has_live name horizon rest

unfoldable pub merge : DateTime → List StoredCookie → Jar → Jar
merge now [] jar = jar
merge now (c ∷ cs) jar = merge now cs (if is_expired c now then jar else keep jar c)

-- `load`
unfoldable pub load : DateTime → List StoredCookie → Jar → Jar
unfolding merge
load now state jar = evict now (merge now state jar)

-- `snapshot`
unfoldable pub snapshot : DateTime → Jar → List StoredCookie × Jar
unfolding values
snapshot now jar = let live = drop_expired now jar in (values live.cookies, live)
