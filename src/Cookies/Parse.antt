-- ===== src/Cookies/Parse.antt =====
-- `_parse` and `_expiry` of eazy_sdk/cookies.py.
use eazy_sdk.Prelude.{
  ℕ, ◌+◌, ◌*◌, Bool, true, false, not, ◌||◌, Option, none, some, List, [], ◌∷◌, ◌==◌, leb, ltb,
  if◌then◌else◌, length,
}
use eazy_sdk.Cookies.Chars.{Text, text_eq, partition, split, strip}
use eazy_sdk.Dict.{lookup, put}
use eazy_sdk.Cookies.{Platform, DateTime, add_seconds, read, unreadable, too_large}

abbrev pub Attributes : Type 0
Attributes = List (Text × Text)

-- `"max-age"`
abbrev pub max_age_name : Text
max_age_name = b'm' ∷ b'a' ∷ b'x' ∷ b'-' ∷ b'a' ∷ b'g' ∷ b'e' ∷ []

-- `"expires"`
abbrev pub expires_name : Text
expires_name = b'e' ∷ b'x' ∷ b'p' ∷ b'i' ∷ b'r' ∷ b'e' ∷ b's' ∷ []

abbrev pub no_text : Text → Bool
no_text [] = true
no_text (x ∷ s) = false

unfoldable pub attribute : Text → Attributes → Option Text
unfolding lookup
attribute name attributes = lookup text_eq name attributes

-- The loop over the chunks: the last occurrence of an attribute wins.
unfoldable pub read_attributes : Platform → List Text → Attributes → Attributes
unfolding partition put strip
read_attributes p [] attributes = attributes
read_attributes p (chunk ∷ chunks) attributes =
    let (name, found, item) = partition b'=' chunk in
    let name' = p.lower (strip name) in
    read_attributes p chunks
      (if no_text name' then attributes else put text_eq name' (strip item) attributes)

-- `_parse`
unfoldable pub parse : Platform → Text → Option (Text × Text × Attributes)
unfolding read_attributes
parse p line =
    let (pair, more, rest) = partition b';' line in
    let (name, found, value) = partition b'=' pair in
    if not found || no_text (strip name)
    then none
    else some (strip name, strip value, read_attributes p (split b';' rest) [])

-- What `int`, `StoredCookie` and the sum of a `datetime` and a `timedelta` raise.
pub data JarError : Type 0 where
  value_error overflow_error : JarError

-- `\d+` in full, with its value: `none` where a character is no digit.
unfoldable pub digits_value : Platform → Text → ℕ → Option ℕ
digits_value p [] n = some n
digits_value p (c ∷ s) n = elim (p.digit c) [ none ↦ none | some d ↦ digits_value p s (n * 10 + d) ]

-- A text of the form `-?\d+`: whether it has the sign, its digits and their value.
unfoldable pub read_int : Platform → Text → Option (Bool × Text × ℕ)
unfolding digits_value
read_int p [] = none
read_int p (c ∷ s) =
    let negative = c == b'-' in
    let digits = if negative then s else c ∷ s in
    if no_text digits
    then none
    else elim (digits_value p digits 0) [ none ↦ none | some n ↦ some (negative, digits, n) ]

-- What `_expiry` gives: an expiry or none, or that the cookie is removed, or an exception.
pub data Expiry : Type 0 where
  keeps : Option DateTime → Expiry
  removes : Expiry
  breaks : JarError → Expiry

-- `int` refuses more than 4300 digits.
abbrev pub max_digits : ℕ
max_digits = 4300

unfoldable pub max_age_expiry : DateTime → Bool × Text × ℕ → Expiry
max_age_expiry now (negative, digits, n) =
    if ltb max_digits (length digits)
    then breaks value_error
    else if negative || n == 0
    then removes
    else elim (add_seconds now n) [
      | none ↦ breaks overflow_error
      | some moment ↦ keeps (some moment)
    ]

unfoldable pub expires_expiry : Platform → DateTime → Option Text → Expiry
expires_expiry p now none = keeps none
expires_expiry p now (some text) = if no_text text then keeps none else elim (p.parse_date text) [
  | unreadable ↦ keeps none
  | too_large ↦ breaks overflow_error
  | read moment ↦ if leb moment now then removes else keeps (some moment)
]

-- `_expiry`: `Max-Age` wins over `Expires`, unless it is no integer.
unfoldable pub expiry : Platform → Attributes → DateTime → Expiry
unfolding attribute read_int max_age_expiry expires_expiry
expiry p attributes now = elim (attribute max_age_name attributes) [
  | none ↦ expires_expiry p now (attribute expires_name attributes)
  | some text ↦ elim (read_int p text) [
    | none ↦ expires_expiry p now (attribute expires_name attributes)
    | some age ↦ max_age_expiry now age
  ]
]
