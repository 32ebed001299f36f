-- ===== src/Json.antt =====
-- What the services see of a JSON text: `JSON.parse` and `JSON.stringify` are the platform's, and
-- stand here as an interface with the one law that the amr columns rely on.
-- Also token/amr.ts, which reads such a column defensively.
use sassy_auth.Common.{String, Option, none, some, List, [], ◌∷◌, map, ◌≡◌, refl, filter_map, ap}

pub data JsonItem : Type 0 where
  str : String → JsonItem
  not_str : JsonItem

pub data Json : Type 0 where
  array : List JsonItem → Json
  not_array : Json

-- `parse` is `none` where `JSON.parse` throws.
pub record JsonText : Type 0 where
  pub parse : String → Option Json
  pub stringify : List String → String
  pub parse-stringify : (xs : List String) → parse (stringify xs) ≡ some (array (map str xs))

abbrev pub str? : JsonItem → Option String
str? (str s) = some s
str? not_str = none

-- `safeParseAmr`
unfoldable pub safe_parse_amr : JsonText → String → List String
safe_parse_amr json raw = elim (json.parse raw) [
  | none ↦ "pwd" ∷ []
  | some (array xs) ↦ filter_map str? xs
  | some not_array ↦ "pwd" ∷ []
]

filter_map-str? : (xs : List String) → filter_map str? (map str xs) ≡ xs
filter_map-str? [] = refl
filter_map-str? (x ∷ xs) = ap (λ l. x ∷ l) (filter_map-str? xs)

-- The methods that were written to an amr column come back as they were.
pub safe_parse_amr-stringify :
    (json : JsonText) (amr : List String) → safe_parse_amr json (json.stringify amr) ≡ amr
unfolding safe_parse_amr
safe_parse_amr-stringify json amr =
    rw (json.parse-stringify amr, safe_parse_amr) (filter_map-str? amr)
