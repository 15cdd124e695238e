-- ===== src/Sink/Rows.antt =====
-- NullClickHouseSink.insert_rows: the last write of each key wins, like in a ReplacingMergeTree.
use glynac_ingestion_platfor.Common.{
  String, ◌≡◌, refl, ◌∙◌, sym, ap, inl, inr, ◌≤◌, Bool, true, false, Option, none, some, List, [],
  ◌∷◌, arith, str_eq, eq_iff, eq_refl, ==_iff, ==_refl, if◌then◌else◌, find, count, Bool-cases,
}
use glynac_ingestion_platfor.Common.Maps.{lookup-insert, lookup-insert_ne}
use glynac_ingestion_platfor.Json.{Json, JsonObject, null, bool, num, text}
use glynac_ingestion_platfor.World.{World, modify}
use glynac_ingestion_platfor.Sink.{
  json_eq, key_eq, key_of, upsert, upsert_all, rows_of, insert_under, insert_rows, table_name,
}

json_eq_sound : (a b : Json) → json_eq a b ≡ true → a ≡ b
json_eq_sound null null h = refl
json_eq_sound null (bool c) h = cc
json_eq_sound null (num c) h = cc
json_eq_sound null (text c) h = cc
json_eq_sound (bool true) (bool true) h = refl
json_eq_sound (bool true) (bool false) h = cc
json_eq_sound (bool false) (bool true) h = cc
json_eq_sound (bool false) (bool false) h = refl
json_eq_sound (bool true) null h = cc
json_eq_sound (bool false) null h = cc
json_eq_sound (bool true) (num n) h = cc
json_eq_sound (bool false) (num n) h = cc
json_eq_sound (bool true) (text n) h = cc
json_eq_sound (bool false) (text n) h = cc
json_eq_sound (num m) null h = cc
json_eq_sound (num m) (bool c) h = cc
json_eq_sound (num m) (num n) h = ap num ((==_iff m n).0 h)
json_eq_sound (num m) (text n) h = cc
json_eq_sound (text s) null h = cc
json_eq_sound (text s) (bool c) h = cc
json_eq_sound (text s) (num n) h = cc
json_eq_sound (text s) (text t) h = ap text ((eq_iff s t).0 h)

json_eq_refl : (a : Json) → json_eq a a ≡ true
json_eq_refl null = refl
json_eq_refl (bool true) = refl
json_eq_refl (bool false) = refl
json_eq_refl (num n) = ==_refl n
json_eq_refl (text s) = eq_refl s

key_eq_sound : (k l : List Json) → key_eq k l ≡ true → k ≡ l
key_eq_sound [] [] h = refl
key_eq_sound [] (b ∷ l) h = cc
key_eq_sound (a ∷ k) [] h = cc
key_eq_sound (a ∷ k) (b ∷ l) h = elim (Bool-cases (json_eq a b)) [
  | inl e ↦
      let same : key_eq k l ≡ true = ground arith in
      let p = json_eq_sound a b e in let q = key_eq_sound k l same in cc
  | inr e ↦ ground arith
]

key_eq_refl : (k : List Json) → key_eq k k ≡ true
key_eq_refl [] = refl
key_eq_refl (a ∷ k) = ground (arith, json_eq_refl a, key_eq_refl k)

-- The last element that passes the test.
abbrev pub find_last {ℓ} : {A : Type ℓ} → (A → Bool) → List A → Option A
find_last p [] = none
find_last p (x ∷ xs) = elim (find_last p xs) [
  | some y ↦ some y
  | none ↦ if p x then some x else none
]

abbrev pub or_else {ℓ} : {A : Type ℓ} → Option A → Option A → Option A
or_else none b = b
or_else (some a) b = some a

module _ (key : JsonObject → List Json) (k : List Json) where
  abbrev pub at_key : JsonObject → Bool
  at_key r = key_eq (key r) k

  at_key-same : (r row : JsonObject) → key_eq (key r) (key row) ≡ true → at_key r ≡ at_key row
  at_key-same r row h = ap (λ l. key_eq l k) (key_eq_sound (key r) (key row) h)

  at_key-apart :
      (r row : JsonObject) → at_key r ≡ true → at_key row ≡ true → key_eq (key r) (key row) ≡ true
  at_key-apart r row h h' =
      let e = key_eq_sound (key r) k h in
      let e' = key_eq_sound (key row) k h' in
      ap (λ l. key_eq (key r) l) (e' ∙ sym e) ∙ key_eq_refl (key r)

  find-upsert :
      (row : JsonObject) (rows : List JsonObject)
      → find at_key (upsert key row rows) ≡ (if at_key row then some row else find at_key rows)
  find-upsert row [] = refl
  find-upsert row (r ∷ rows) =
      ground (arith, at_key-same r row, at_key-apart r row, find-upsert row rows)

  find-upsert_all :
      (rows table : List JsonObject)
      → find at_key (upsert_all key rows table)
        ≡ or_else (find_last at_key rows) (find at_key table)
  find-upsert_all [] table = refl
  find-upsert_all (row ∷ rows) table =
      ground (arith, find-upsert_all rows (upsert key row table), find-upsert row table)

  count-upsert_apart :
      (row : JsonObject) (rows : List JsonObject)
      → at_key row ≡ false
      → count at_key (upsert key row rows) ≡ count at_key rows
  count-upsert_apart row [] h = rw h refl
  count-upsert_apart row (r ∷ rows) h =
      ground (arith, at_key-same r row, count-upsert_apart row rows h)

  count-upsert :
      (row : JsonObject) (rows : List JsonObject)
      → count at_key rows ≤ 1
      → count at_key (upsert key row rows) ≤ 1
  count-upsert row [] h = ground arith
  count-upsert row (r ∷ rows) h = ground (
    arith,
    at_key-same r row,
    at_key-apart r row,
    count-upsert_apart row rows,
    count-upsert row rows,
  )

  count-upsert_all :
      (rows table : List JsonObject)
      → count at_key table ≤ 1
      → count at_key (upsert_all key rows table) ≤ 1
  count-upsert_all [] table h = h
  count-upsert_all (row ∷ rows) table h =
      count-upsert_all rows (upsert key row table) (count-upsert row table h)

count-find_last :
    (p : JsonObject → Bool) (rows : List JsonObject) → count p rows ≡ 0 → find_last p rows ≡ none
count-find_last p [] h = refl
count-find_last p (r ∷ rows) h = ground (arith, count-find_last p rows)

find_last-find :
    (p : JsonObject → Bool) (rows : List JsonObject)
    → count p rows ≤ 1
    → find_last p rows ≡ find p rows
find_last-find p [] h = refl
find_last-find p (r ∷ rows) h = ground (arith, find_last-find p rows, count-find_last p rows)

-- The rows that one turn of the loop leaves under a name, read at a key.
module _ (key : JsonObject → List Json) (k : List Json) (rows : List JsonObject) where
  rows_of-insert_under :
      (name : String) (tables : List (String × List JsonObject))
      → rows_of name (insert_under key rows name tables)
        ≡ upsert_all key rows (upsert_all key (rows_of name tables) [])
  unfolding insert_under
  rows_of-insert_under name tables = ground (
    arith,
    lookup-insert name (upsert_all key rows (upsert_all key (rows_of name tables) [])) tables,
  )

  rows_of-insert_under_ne :
      (name other : String) (tables : List (String × List JsonObject))
      → str_eq name other ≡ false
      → rows_of other (insert_under key rows name tables) ≡ rows_of other tables
  unfolding insert_under
  rows_of-insert_under_ne name other tables ne = ground (
    arith,
    lookup-insert_ne name other (upsert_all key rows (upsert_all key (rows_of name tables) []))
        tables ne,
  )

  count-insert_under :
      (name : String) (tables : List (String × List JsonObject))
      → count (at_key key k) (rows_of name (insert_under key rows name tables)) ≤ 1
  count-insert_under name tables = rw (rows_of-insert_under name tables) (
      count-upsert_all key k rows (upsert_all key (rows_of name tables) [])
        (count-upsert_all key k (rows_of name tables) [] (omega arith)))

  find-insert_under :
      (name : String) (tables : List (String × List JsonObject))
      → count (at_key key k) (rows_of name tables) ≤ 1
      → find (at_key key k) (rows_of name (insert_under key rows name tables))
        ≡ or_else (find_last (at_key key k) rows) (find (at_key key k) (rows_of name tables))
  find-insert_under name tables one =
      ap (find (at_key key k)) (rows_of-insert_under name tables)
      ∙ find-upsert_all key k rows (upsert_all key (rows_of name tables) [])
      ∙ ap (or_else (find_last (at_key key k) rows)) (
          find-upsert_all key k (rows_of name tables) []
          ∙ ground (arith, find_last-find (at_key key k) (rows_of name tables) one))

  -- What the first turn leaves under the name of the second.
  find-insert_under_any :
      (a b : String) (tables : List (String × List JsonObject))
      → count (at_key key k) (rows_of b tables) ≤ 1
      → let first = insert_under key rows a tables in
        (count (at_key key k) (rows_of b first) ≤ 1)
        × (or_else (find_last (at_key key k) rows) (find (at_key key k) (rows_of b first))
            ≡ or_else (find_last (at_key key k) rows) (find (at_key key k) (rows_of b tables)))
  find-insert_under_any a b tables one = elim (Bool-cases (str_eq a b)) [
    | inr ne ↦ rw (rows_of-insert_under_ne a b tables ne) (one, refl)
    | inl e ↦
        rw ((eq_iff a b).0 e)
          (count-insert_under b tables, ground (arith, find-insert_under b tables one))
  ]

abbrev pub stored : String → World → List JsonObject
stored table w = rows_of table w.tables

-- Rows loaded into a table that holds at most one row with a key: at this key, the table then holds
-- the last of the loaded rows that have it, or what it held when none has; and one row at most.
pub insert_rows_last_write_wins :
    (object_name service : String) (key_columns : List String) (rows : List JsonObject)
    (k : List Json) (w : World)
    → count (at_key (key_of key_columns) k) (stored (table_name object_name service) w) ≤ 1
    → let p = at_key (key_of key_columns) k in
      let table = table_name object_name service in
      let w' = (insert_rows object_name rows service key_columns w).1 in
      (find p (stored table w') ≡ or_else (find_last p rows) (find p (stored table w)))
      × (count p (stored table w') ≤ 1)
unfolding insert_rows modify
insert_rows_last_write_wins object_name service key_columns rows k w one =
    let key = key_of key_columns in
    let table = table_name object_name service in
    let first = insert_under key rows object_name w.tables in
    let r = find-insert_under_any key k rows object_name table w.tables one in
    (find-insert_under key k rows table first r.0 ∙ r.1, count-insert_under key k rows table first)

-- Loading the same rows a second time changes no row of the table: at each key it holds what it
-- held after the first time.
pub insert_rows_replay :
    (object_name service : String) (key_columns : List String) (rows : List JsonObject)
    (k : List Json) (w : World)
    → count (at_key (key_of key_columns) k) (stored (table_name object_name service) w) ≤ 1
    → let p = at_key (key_of key_columns) k in
      let table = table_name object_name service in
      let w' = (insert_rows object_name rows service key_columns w).1 in
      let w'' = (insert_rows object_name rows service key_columns w').1 in
      find p (stored table w'') ≡ find p (stored table w')
insert_rows_replay object_name service key_columns rows k w one =
    let w' = (insert_rows object_name rows service key_columns w).1 in
    let a = insert_rows_last_write_wins object_name service key_columns rows k w one in
    let b = insert_rows_last_write_wins object_name service key_columns rows k w' a.1 in
    ground (arith, a.0, b.0)
