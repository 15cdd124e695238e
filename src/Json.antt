-- ===== src/Json.antt =====
-- JSON objects of scalar values: Python's dicts with text keys, and their text by `json.dumps`.
use Prim.Native.Char.{code}
use glynac_ingestion_platfor.Common.{
  ℕ, String, ◌<>◌, Bool, ◌||◌, List, [], ◌∷◌, str_eq, if◌then◌else◌, ◌==◌,
}
use glynac_ingestion_platfor.Common.Text.{show}
use glynac_ingestion_platfor.Errors.{Result, ok, err, key_error}

pub data Json : Type 0 where
  null : Json
  bool : Bool → Json
  num : ℕ → Json
  text : String → Json

abbrev pub JsonObject : Type 0
JsonObject = List (String × Json)

-- `d.get(key)`
abbrev pub get : String → JsonObject → Json
get key [] = null
get key ((k, v) ∷ d) = if str_eq k key then v else get key d

-- `key in d`
abbrev pub has_key : String → JsonObject → Bool
has_key key [] = Bool.false
has_key key ((k, v) ∷ d) = if str_eq k key then Bool.true else has_key key d

-- `d[key] = value`
abbrev pub put : String → Json → JsonObject → JsonObject
put key v [] = (key, v) ∷ []
put key v ((k, w) ∷ d) = if str_eq k key then (k, v) ∷ d else (k, w) ∷ put key v d

-- A quotation mark or a backslash takes a backslash. (`dumps` also writes control characters and
-- characters beyond ASCII as escapes, which the texts here do not hold.)
escape : String → String
escape String.[] = ""
escape (String.◌∷◌ c s) =
    let rest = escape s in
    if code c == 34 || code c == 92 then "\\" <> String.◌∷◌ c rest else String.◌∷◌ c rest

dump_value : Json → String
unfolding escape
dump_value null = "null"
dump_value (bool Bool.true) = "true"
dump_value (bool Bool.false) = "false"
dump_value (num n) = show n
dump_value (text s) = "\"" <> escape s <> "\""

dump_fields : JsonObject → String
unfolding dump_value
dump_fields [] = ""
dump_fields ((k, v) ∷ []) = "\"" <> escape k <> "\": " <> dump_value v
dump_fields ((k, v) ∷ e ∷ d) =
    "\"" <> escape k <> "\": " <> dump_value v <> ", " <> dump_fields (e ∷ d)

-- `json.dumps`
unfoldable pub dumps : JsonObject → String
unfolding dump_fields
dumps d = "{" <> dump_fields d <> "}"

-- `not value`: what Python takes for false.
abbrev pub is_falsy : Json → Bool
is_falsy null = Bool.true
is_falsy (bool Bool.true) = Bool.false
is_falsy (bool Bool.false) = Bool.true
is_falsy (num n) = n == 0
is_falsy (text s) = str_eq s ""

-- `str(value)`
unfoldable pub str : Json → String
str null = "None"
str (bool Bool.true) = "True"
str (bool Bool.false) = "False"
str (num n) = show n
str (text s) = s

-- `value or default`
abbrev pub or_default : Json → Json → Json
or_default v default = if is_falsy v then default else v

-- `d[key]`, which raises KeyError
abbrev pub item : String → JsonObject → Result Json
item key d = if has_key key d then ok (get key d) else err (key_error key)
