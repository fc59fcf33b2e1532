-- ===== src/Cookies.antt =====
-- eazy_sdk/cookies.py: the cookies that a site sets, stored and sent back as a browser does it.
pub mod Chars
pub mod Parse
pub mod Match
pub mod Jar
pub mod Belongs
pub mod Select
pub mod Holds
pub mod Origin
pub mod Reached
pub mod Counting
pub mod Eviction
pub mod Home
pub mod Examples
use eazy_sdk.Prelude.{ℕ, ◌+◌, ◌*◌, Bool, Option, none, some, ltb, leb, if◌then◌else◌}
use eazy_sdk.Cookies.Chars.{Text}

-- What the module calls: `str.lower`, the decimal value of a character of class `\d`, and
-- `ipaddress.ip_address` (whether it accepts the text). `parse_date` is `parsedate_to_datetime`
-- with `UTC` put in for a missing zone: a moment, or an exception.
pub data DateRead : Type 0 where
  read : ℕ → DateRead
  unreadable : DateRead  -- `TypeError` or `ValueError`
  too_large : DateRead  -- `OverflowError`

pub record Platform : Type 0 where
  pub lower : Text → Text
  pub digit : ℕ → Option ℕ
  pub is_ip : Text → Bool
  pub parse_date : Text → DateRead

-- A `datetime` in UTC is its microseconds since the year 1.
abbrev pub DateTime : Type 0
DateTime = ℕ

-- `datetime.max`
unfoldable pub last_moment : DateTime
last_moment = 315537897599999999

-- `now + timedelta(seconds=seconds)`: `none` is `OverflowError`.
unfoldable pub add_seconds : DateTime → ℕ → Option DateTime
add_seconds now seconds =
    let moment = now + seconds * 1000000 in if ltb last_moment moment then none else some moment

pub record StoredCookie : Type 0 where
  pub name : Text
  pub value : Text
  pub domain : Text
  pub path : Text
  pub host_only : Bool
  pub expires_at : Option DateTime
  pub secure : Bool
  pub http_only : Bool
  pub same_site : Text

-- A name, a domain and a path.
abbrev pub Key : Type 0
Key = Text × Text × Text

-- `StoredCookie.key`
unfoldable pub key : StoredCookie → Key
key c = (c.name, c.domain, c.path)

-- `StoredCookie.is_expired`
unfoldable pub is_expired : StoredCookie → DateTime → Bool
is_expired c now = elim c.expires_at [ none ↦ Bool.false | some moment ↦ leb moment now ]

-- `_Target`, and the loopback hosts as `_target` finds them.
pub record Target : Type 0 where
  pub scheme : Text
  pub host : Text
  pub path : Text
