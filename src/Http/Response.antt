-- ===== src/Http/Response.antt =====
-- Response artifacts: eazy_sdk/response/headers.py, eazy_sdk/response/normalized.py and the
-- outcomes of eazy_sdk/response/cases.py. `lower` stands for Python's `str.lower`.
use Prim.Native.String.{◌++◌ as str_append}
use eazy_sdk.Prelude.{
  ℕ, String, Bool, Option, none, some, List, [], ◌∷◌, map, str_eq, if◌then◌else◌,
}
use eazy_sdk.Http.Failure.{Failure}

pub record Headers : Type 0 where
  pub items : List (String × String)

-- `Headers.__init__`
unfoldable pub headers_of : (String → String) → List (String × String) → Headers
headers_of lower values = record {
  items = map (λ (kv : String × String). (lower kv.0, kv.1)) values;
}

-- The loop of `getall`.
unfoldable pub field_lines : String → List (String × String) → List String
field_lines normalized [] = []
field_lines normalized ((key, value) ∷ rest) =
    let lines = field_lines normalized rest in
    if str_eq key normalized then value ∷ lines else lines

unfoldable pub getall : (String → String) → Headers → String → List String
unfolding field_lines
getall lower headers name = field_lines (lower name) headers.items

-- `", ".join(values)`
unfoldable pub joined : String → List String → String
joined first [] = first
joined first (value ∷ rest) = str_append first (str_append ", " (joined value rest))

-- `Mapping.get` over `__getitem__`: `None` where that raises `KeyError`.
header_value : List String → Option String
header_value [] = none
header_value (value ∷ rest) = some (joined value rest)

unfoldable pub get : (String → String) → Headers → String → Option String
unfolding header_value getall
get lower headers name = header_value (getall lower headers name)

-- The fields of `NormalizedResponse` that the model reads.
pub record NormalizedResponse : Type 0 where
  pub status_code : ℕ
  pub url : String
  pub headers : Headers
  pub body : List ℕ

-- What the declared cases make of a response. `unwrap` of each but `success` raises the exception
-- that it carries here.
pub data ResponseOutcome (T : Type 0) : Type 0 where
  success : T → ResponseOutcome T
  error : Bool → Failure → ResponseOutcome T
  unexpected malformed ambiguous : Failure → ResponseOutcome T
