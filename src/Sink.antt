-- ===== src/Sink.antt =====
-- app/clickhouse_sink.py: the names of the tables, the SQL that loads a landed file, and
-- NullClickHouseSink, which keeps the rows in memory with the last write of each key.
pub mod Rows
pub mod Quoting
pub mod Views
pub mod Tenants
use glynac_ingestion_platfor.Common.{
  String, ◌<>◌, Bool, true, false, ◌||◌, ◌&&◌, not, none, some, List, [], ◌∷◌, ◌++◌, if◌then◌else◌,
  ◌==◌, str_eq, starts_with, map,
}
use glynac_ingestion_platfor.Common.Maps.{lookup, insert, add_name}
use glynac_ingestion_platfor.Common.Text.{lower, replace, ends_with, join}
use glynac_ingestion_platfor.Errors.{Result, ok, err, key_error}
use glynac_ingestion_platfor.Json.{Json, JsonObject, null, bool, num, text, get}
use glynac_ingestion_platfor.World.{Action, SchemaField, pure, modify, ◌>>=◌, ◌>>◌, external}
use glynac_ingestion_platfor.Storage.{get_object}

-- CH_TYPE_MAP
unfoldable pub ch_type_map : List (String × String)
ch_type_map =
    ("string", "String")
    ∷ ("float", "Float64")
    ∷ ("int", "Int32")
    ∷ ("bool", "UInt8")
    ∷ ("datetime", "DateTime64(3)")
    ∷ ("date", "Date")
    ∷ []

-- `_q`
unfoldable pub q : String → String
q value = replace b'\'' "\\'" (replace b'\\' "\\\\" value)

-- `renames.get(name, name)`
abbrev pub renamed : List (String × String) → String → String
renamed renames name = elim (lookup name renames) [ none ↦ name | some src ↦ src ]

-- One column of the structure and of the SELECT.
column_sql : List (String × String) → SchemaField → Result (String × String)
unfolding ch_type_map
column_sql renames (name, type_) =
    let src = renamed renames name in
    if str_eq type_ "datetime"
    then ok (
      "`" <> src <> "` Nullable(String)",
      "parseDateTime64BestEffortOrNull(`" <> src <> "`, 3) AS `" <> name <> "`",
    )
    else elim (lookup type_ ch_type_map) [
      | none ↦ err (key_error type_)
      | some column_type ↦
          ok (
            "`" <> src <> "` Nullable(" <> column_type <> ")",
            "`" <> src <> "` AS `" <> name <> "`",
          )
    ]

columns_sql : List (String × String) → List SchemaField → Result (List String × List String)
unfolding column_sql
columns_sql renames [] = ok ([], [])
columns_sql renames (field ∷ schema) = elim (column_sql renames field) [
  | err e ↦ err e
  | ok (structure, select) ↦ elim (columns_sql renames schema) [
    | err e ↦ err e
    | ok (structures, selects) ↦ ok (structure ∷ structures, select ∷ selects)
  ]
]

-- `build_load_sql`
unfoldable pub build_load_sql :
    String
    → List SchemaField
    → String
    → String
    → String
    → String
    → List (String × String)
    → List String
    → Result String
unfolding columns_sql q join
build_load_sql table schema url access_key secret_key fmt renames required =
    elim (columns_sql renames schema) [
      | err e ↦ err e
      | ok (structure, select) ↦
          let where_ : String = join " AND " (
            map
              (λ c.
                "`" <> renamed renames c <> "` IS NOT NULL AND `" <> renamed renames c <> "` != ''")
              required) in
          let columns : String =
            join ", " (map (λ (field : SchemaField). "`" <> field.0 <> "`") schema) in
          ok (
            "INSERT INTO "
            <> table
            <> " ("
            <> columns
            <> ") "
            <> "SELECT "
            <> join ", " select
            <> " "
            <> "FROM s3('"
            <> q url
            <> "', '"
            <> q access_key
            <> "', '"
            <> q secret_key
            <> "', '"
            <> fmt
            <> "', '"
            <> join ", " structure
            <> "') "
            <> (if str_eq where_ "" then "" else "WHERE " <> where_ <> " ")
            <> "SETTINGS insert_null_as_default = 1, input_format_json_read_bools_as_numbers = 1, "
            <> "s3_retry_attempts = 3")
    ]

-- `_format_for`
unfoldable pub format_for : String → String
format_for path = if ends_with path ".parquet" then "Parquet" else "JSONEachRow"

-- `_table_name`
unfoldable pub table_name : String → String → String
unfolding lower replace
table_name object_name service =
    let clean : String = replace b'-' "_" (lower object_name) in
    if starts_with clean "bronze_" || starts_with clean "v_" || starts_with clean "slack_"
    then clean
    else "bronze_" <> lower service <> "_" <> clean

-- `ensure_table`
unfoldable pub ensure_table : String → List SchemaField → String → Action (Unit {0})
ensure_table object_name schema service = do
  external
  modify λ w.
      let table = table_name object_name service in
      record w {
        tables_created = add_name table (add_name object_name w.tables_created);
        table_schemas = insert table schema (insert object_name schema w.table_schemas);
      }

-- `ensure_view`
unfoldable pub ensure_view : String → String → Action (Unit {0})
ensure_view object_name service = do
  external
  modify λ w. record w {
    views_created =
        add_name ("v_" <> table_name object_name service <> "_latest")
          (add_name object_name w.views_created);
  }

-- A value as a part of a key: True and 1 are one key of a dict, and False and 0.
abbrev pub canon : Json → Json
canon (bool true) = num 1
canon (bool false) = num 0
canon v = v

abbrev pub json_eq : Json → Json → Bool
json_eq null null = true
json_eq (bool true) (bool true) = true
json_eq (bool false) (bool false) = true
json_eq (num m) (num n) = m == n
json_eq (text s) (text t) = str_eq s t
json_eq _ _ = false

abbrev pub key_eq : List Json → List Json → Bool
key_eq [] [] = true
key_eq (a ∷ k) (b ∷ l) = json_eq a b && key_eq k l
key_eq _ _ = false

-- `tuple(row.get(c) for c in key_columns)`
abbrev pub key_of : List String → JsonObject → List Json
key_of [] row = []
key_of (c ∷ key_columns) row = canon (get c row) ∷ key_of key_columns row

-- `by_key[key(row)] = row`
abbrev pub upsert : (JsonObject → List Json) → JsonObject → List JsonObject → List JsonObject
upsert key row [] = row ∷ []
upsert key row (r ∷ rows) =
    let rest = upsert key row rows in if key_eq (key r) (key row) then row ∷ rows else r ∷ rest

-- `by_key[key(row)] = row`, for each row in turn
abbrev pub upsert_all :
    (JsonObject → List Json) → List JsonObject → List JsonObject → List JsonObject
upsert_all key [] table = table
upsert_all key (row ∷ rows) table = upsert_all key rows (upsert key row table)

abbrev pub rows_of : String → List (String × List JsonObject) → List JsonObject
rows_of name tables = elim (lookup name tables) [ none ↦ [] | some rows ↦ rows ]

-- One turn of the loop over `(object_name, table)`.
unfoldable pub insert_under :
    (JsonObject → List Json)
    → List JsonObject
    → String
    → List (String × List JsonObject)
    → List (String × List JsonObject)
insert_under key rows name tables =
    insert name (upsert_all key rows (upsert_all key (rows_of name tables) [])) tables

-- `insert_rows`
unfoldable pub insert_rows : String → List JsonObject → String → List String → Action (Unit {0})
unfolding insert_under
insert_rows object_name rows service key_columns = modify λ w. record w {
  tables =
      insert_under (key_of key_columns) rows (table_name object_name service)
        (insert_under (key_of key_columns) rows object_name w.tables);
}

-- `{name: record.get(renames.get(name, name)) for name, _ in schema}`
abbrev pub select_row : List (String × String) → List SchemaField → JsonObject → JsonObject
select_row renames [] r = []
select_row renames ((name, type_) ∷ schema) r =
    (name, get (renamed renames name) r) ∷ select_row renames schema r

-- `all(row.get(c) not in (None, "") for c in required)`
abbrev pub has_required : List String → JsonObject → Bool
has_required [] row = true
has_required (c ∷ required) row =
    not (json_eq (get c row) null || json_eq (get c row) (text "")) && has_required required row

abbrev pub loaded_rows :
    List (String × String) → List SchemaField → List String → List JsonObject → List JsonObject
loaded_rows renames schema required [] = []
loaded_rows renames schema required (r ∷ records) =
    let row = select_row renames schema r in
    let rest = loaded_rows renames schema required records in
    if has_required required row then row ∷ rest else rest

-- The loop over the paths.
unfoldable pub read_landed :
    List (String × String) → List SchemaField → List String → List String → Action (List JsonObject)
read_landed renames schema required [] = pure []
read_landed renames schema required (path ∷ paths) = do
  records ← get_object path
  rest ← read_landed renames schema required paths
  pure (loaded_rows renames schema required records ++ rest)

-- `load_from_storage`
unfoldable pub load_from_storage :
    String
    → List SchemaField
    → List String
    → String
    → List (String × String)
    → List String
    → List String
    → Action (Unit {0})
load_from_storage object_name schema paths service renames required key_columns = do
  rows ← read_landed renames schema required paths
  external
  insert_rows object_name rows service key_columns

-- `ensure_slack_views`
unfoldable pub ensure_slack_views : Action (Unit {0})
ensure_slack_views = do
  external
  modify λ w. record w { views_created = add_name "v_slack_compliance_timeline" w.views_created }

-- `ensure_analytical_views`
unfoldable pub ensure_analytical_views : Action (Unit {0})
ensure_analytical_views = do
  external
  modify λ w. record w {
    views_created =
        add_name "v_slack_compliance_timeline"
          (add_name "v_client_360_deals" (add_name "v_hubspot_deal_pipeline" w.views_created));
  }
