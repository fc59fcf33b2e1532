-- ===== src/Cookies/Examples.antt =====
-- A jar of one site.
use eazy_sdk.Prelude.{◌⊎◌, inl, length, ◌≤◌}
use eazy_sdk.Cookies.Eviction.{limit_kept}
use eazy_sdk.Cookies.Home.{cookie_of-belongs}
use eazy_sdk.Cookies.Belongs.{Private}
use eazy_sdk.Cookies.Jar.{path_name, secure_name}
use eazy_sdk.Prelude.{is_some}
use eazy_sdk.Cookies.Parse.{attribute}
use eazy_sdk.Cookies.Jar.{accepts_cookie, keep_new, load, max_cookies, domain_name}
use eazy_sdk.Cookies.{unreadable}
use eazy_sdk.Cookies.Chars.{text_eq, split}
use eazy_sdk.Cookies.Parse.{parse, expiry}
use eazy_sdk.Cookies.Match.{scope, scope_of, is_suffix}
use eazy_sdk.Cookies.Origin.{IsOwn, store-IsOwn}
use eazy_sdk.Cookies.Jar.{
  store, store_lines, store_line, settle_line, attribute_or_empty, cookie_of, cookie_path, keep,
  touch, evict, drop_expired, drop, expired_keys, trim_groups, trim_all, drop_least_used, by_domain,
  keys,
}
use eazy_sdk.Prelude.{◌≡◌, ◌↔◌, refl, true, false, none, some, [], ◌∷◌}
use eazy_sdk.Dict.{Mem}
use eazy_sdk.Dict.Distinct.{Distinct}
use eazy_sdk.Cookies.Chars.{Text, starts_with}
use eazy_sdk.Cookies.Match.{slash, belongs, default_path}
use eazy_sdk.Cookies.Belongs.{Carries, belongs-Carries}
use eazy_sdk.Cookies.Jar.{Jar, values, key_eq, select}
use eazy_sdk.Cookies.Select.{LongestFirst, select_exact}
use eazy_sdk.Cookies.{Platform, StoredCookie, key, is_expired, Target}

abbrev platform : Platform
platform = record {
  lower = λ text. text;
  digit = λ c. none;
  is_ip = λ text. false;
  parse_date = λ text. unreadable;
}

-- `m.x`
abbrev site : Text
site = b'm' ∷ b'.' ∷ b'x' ∷ []

-- `/a/b`
abbrev page : Text
page = b'/' ∷ b'a' ∷ b'/' ∷ b'b' ∷ []

abbrev target : Target
target = record { scheme = b'h' ∷ b't' ∷ b't' ∷ b'p' ∷ []; host = site; path = page }

abbrev session : StoredCookie
session = record {
  name = b's' ∷ [];
  value = b'1' ∷ [];
  domain = site;
  path = b'/' ∷ b'a' ∷ [];
  host_only = true;
  expires_at = none;
  secure = false;
  http_only = false;
  same_site = [];
}

-- The jar with the session.
abbrev jar : Jar
jar = record { cookies = (key session, session) ∷ []; used = (key session, 1) ∷ []; tick = 1 }

jar-Distinct : Distinct key_eq jar.cookies
jar-Distinct = (tt, tt)

-- The line `s=2`
abbrev line : Text
line = b's' ∷ b'=' ∷ b'2' ∷ []

select_exact_example :
    (Mem session (select platform (some target) 5 jar).0 ↔ (
      Mem session (values jar.cookies)
      × (is_expired session 5 ≡ false)
      × Carries platform session target))
    × LongestFirst (select platform (some target) 5 jar).0
select_exact_example = select_exact platform target 5 jar session jar-Distinct

belongs-Carries_example : (belongs platform session target ≡ true) ↔ Carries platform session target
belongs-Carries_example = belongs-Carries platform session target

page_starts : starts_with slash page ≡ true
unfolding starts_with
page_starts = refl

no_domain_is_the_host :
    scope platform none site (attribute_or_empty domain_name []) ≡ some (site, true)
unfolding scope scope_of attribute_or_empty text_eq attribute
no_domain_is_the_host = refl

no_path_is_named : starts_with slash (attribute_or_empty path_name []) ≡ false
unfolding starts_with attribute_or_empty attribute
no_path_is_named = refl

not_secure : is_some (attribute secure_name []) ≡ true → Private target
unfolding attribute
not_secure h = cc

cookie_of-belongs_example :
    belongs platform (cookie_of platform target (b's' ∷ []) (b'2' ∷ []) [] (site, true) none) target
    ≡ true
cookie_of-belongs_example =
    cookie_of-belongs platform none target (b's' ∷ []) (b'2' ∷ []) [] (site, true) none page_starts
      no_domain_is_the_host no_path_is_named not_secure

-- The session as the line sets it again.
abbrev renewed : StoredCookie
renewed = record session { value = b'2' ∷ [] }

line_is_stored : (store platform none (some target) 5 (line ∷ []) jar).1 ≡ none
unfolding accepts_cookie keep_new starts_with cookie_of cookie_path default_path store store_lines
    store_line settle_line parse scope scope_of is_suffix expiry attribute_or_empty split text_eq
line_is_stored = refl

limit_kept_example :
    (length (store platform none (some target) 5 (line ∷ []) jar).0.cookies ≤ max_cookies)
    × (length (load 5 (session ∷ []) jar).cookies ≤ max_cookies)
limit_kept_example =
    limit_kept platform none target 5 (line ∷ []) (session ∷ []) jar jar-Distinct line_is_stored

line_renews : Mem renewed (values (store platform none (some target) 5 (line ∷ []) jar).0.cookies)
unfolding accepts_cookie keep_new starts_with store store_lines store_line settle_line parse scope
    scope_of is_suffix expiry attribute_or_empty cookie_of cookie_path default_path keep key key_eq
    text_eq touch evict drop_expired drop expired_keys is_expired trim_groups trim_all
    drop_least_used by_domain values keys split
line_renews = inl refl

store-IsOwn_example :
    Mem renewed (values jar.cookies) ⊎ IsOwn platform none site renewed.domain renewed.host_only
store-IsOwn_example =
    store-IsOwn platform none target 5 (line ∷ []) jar renewed jar-Distinct line_renews
