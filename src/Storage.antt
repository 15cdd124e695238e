-- ===== src/Storage.antt =====
-- app/storage.py: the object storage. A stored file is the rows that its bytes hold (Parquet and JSON
-- are written and read back by pyarrow and json). Both backends may fail: an entry of `faults`
-- is what the call meets, and a file is written whole or not at all.
use glynac_ingestion_platfor.Common.{String, none, some, List, map, starts_with, filter}
use glynac_ingestion_platfor.Common.Maps.{lookup, insert}
use glynac_ingestion_platfor.Errors.{file_not_found_error}
use glynac_ingestion_platfor.Json.{JsonObject}
use glynac_ingestion_platfor.World.{World, Action, pure, raise, gets, modify, ◌>>=◌, ◌>>◌, external}

-- `put_object`: the file takes the place of one at the same path.
unfoldable pub put_object : String → List JsonObject → Action (Unit {0})
put_object path rows = do external; modify λ w. record w { files = insert path rows w.files }

-- `get_object`
unfoldable pub get_object : String → Action (List JsonObject)
get_object path = do
  external
  found ← gets (λ w. lookup path w.files)
  elim found [ none ↦ raise (file_not_found_error path) | some rows ↦ pure rows ]

-- `list_objects`, not yet sorted
unfoldable pub list_objects : String → World → List String
list_objects prefix w =
    filter (λ path. starts_with path prefix)
      (map (λ (file : String × List JsonObject). file.0) w.files)
