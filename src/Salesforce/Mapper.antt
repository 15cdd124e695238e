-- ===== src/Salesforce/Mapper.antt =====
-- app/salesforce/mapper.py: rows of the Bulk API's CSV become records of the table's columns. Python's
-- csv.DictReader and its reading of numbers are parameters.
use Prim.Native.Char.{code}
use glynac_ingestion_platfor.Common.{
  ℕ, String, ◌<>◌, Bool, true, false, ◌&&◌, ◌||◌, not, Option, none, some, List, [], ◌∷◌,
  if◌then◌else◌, leb, str_eq, map, ◌==◌,
}
use glynac_ingestion_platfor.Common.Maps.{lookup}
use glynac_ingestion_platfor.Common.Text.{lower, strip, join, upper_char}
use glynac_ingestion_platfor.Errors.{Result, ok, err, key_error}
use glynac_ingestion_platfor.Json.{Json, JsonObject, null, bool, text, put}
use glynac_ingestion_platfor.World.{SchemaField}
use glynac_ingestion_platfor.Salesforce.{salesforce_schemas}

abbrev is_upper : ℕ → Bool
is_upper c = leb b'A' c && leb c b'Z'

-- `_CAMEL.sub("_", name)`: an underscore before each capital that is not the first character.
unfoldable pub split_camel : Bool → String → String
split_camel first String.[] = ""
split_camel first (String.◌∷◌ c s) =
    let rest = String.◌∷◌ c (split_camel false s) in
    if is_upper (code c) && not first then "_" <> rest else rest

-- `to_snake`
unfoldable pub to_snake : String → String
unfolding split_camel lower
to_snake name =
    let snake = lower (split_camel true name) in
    if str_eq snake "contract_term" then "contract_term_months" else snake

-- `name.split("_")`, with the part that is being read.
unfoldable pub split_underscore : String → String → List String
split_underscore part String.[] = part ∷ []
split_underscore part (String.◌∷◌ c s) =
    let next = split_underscore "" s in
    let same = split_underscore (part <> String.◌∷◌ c String.[]) s in
    if code c == b'_' then part ∷ next else same

-- `part.capitalize()`, of ASCII text
unfoldable pub capitalize : String → String
capitalize String.[] = ""
capitalize (String.◌∷◌ c s) = upper_char c <> lower s

-- `to_camel`
unfoldable pub to_camel : String → String
unfolding capitalize split_underscore join
to_camel name =
    let source = if str_eq name "contract_term_months" then "contract_term" else name in
    join "" (map capitalize (split_underscore "" source))

abbrev is_true : String → Bool
is_true s = str_eq s "true" || str_eq s "1" || str_eq s "yes"

abbrev pub type_of : String → List SchemaField → String
type_of column types = elim (lookup column types) [ none ↦ "string" | some t ↦ t ]

module _ (read_float read_int : String → Option Json) where
  abbrev pub or_null : Option Json → Json
  or_null none = null
  or_null (some v) = v

  -- `_coerce`: a malformed number is NULL.
  unfoldable pub coerce : String → String → Json
  unfolding lower strip
  coerce value type_name =
      if str_eq value ""
      then null
      else if str_eq type_name "float"
      then or_null (read_float value)
      else if str_eq type_name "int"
      then or_null (read_int value)
      else if str_eq type_name "bool"
      then bool (is_true (lower (strip value)))
      else text value

  -- The dict comprehension of `parse_bulk_csv`: of two columns with one name the later value stays.
  unfoldable pub typed_row : List SchemaField → JsonObject → List (String × String) → JsonObject
  unfolding to_snake coerce
  typed_row types rec [] = rec
  typed_row types rec ((col, val) ∷ row) =
      typed_row types (put (to_snake col) (coerce val (type_of (to_snake col) types)) rec) row

  -- `parse_bulk_csv`, of the rows that csv.DictReader reads.
  unfoldable pub parse_bulk_csv :
      (String → List (List (String × String))) → String → String → String → Result (List JsonObject)
  unfolding typed_row
  parse_bulk_csv read_csv csv_text object_name org_id =
      elim (lookup object_name salesforce_schemas) [
        | none ↦ err (key_error object_name)
        | some types ↦ ok (
            map (λ row. put "organisation_id" (text org_id) (typed_row types [] row))
              (read_csv csv_text))
      ]
