-- ===== src/Mocks/Hubspot/Pages.antt =====
-- The client against the mock server: the pages that a run over the whole list meets.
use glynac_ingestion_platfor.Common.{
  ℕ, suc, ◌+◌, String, ◌≡◌, Option, none, some, List, ◌++◌, length, ltb, if◌then◌else◌,
}
use glynac_ingestion_platfor.Common.Text.{show}
use glynac_ingestion_platfor.Errors.{Result, ok}
use glynac_ingestion_platfor.Json.{Json, JsonObject}
use glynac_ingestion_platfor.World.{SchemaField, Action}
use glynac_ingestion_platfor.Hubspot.Pipeline.{Page}
use glynac_ingestion_platfor.Hubspot.Paging.{Pages, last, more}
use glynac_ingestion_platfor.Hubspot.Client.{normalise_results, wanted, fetch, fetch_page}
use glynac_ingestion_platfor.Mocks.Slices.{slice}
use glynac_ingestion_platfor.Mocks.Hubspot.{State, Stored, Fields, render, serve}

abbrev size_of : Option (List Stored) → ℕ
size_of none = 0
size_of (some xs) = length xs

-- The server has `n` pages from a cursor on, which hold these records.
pub data Delivers (fetch : Option String → Result Page)
    : Option String → List JsonObject → ℕ → Type 0 where
  final :
      {c : Option String} (page : Page)
      → fetch c ≡ ok page
      → page.next_after ≡ none
      → Delivers fetch c page.results 1
  further :
      {c : Option String} {rest : List JsonObject} {n : ℕ} (page : Page) (after : String)
      → fetch c ≡ ok page
      → page.next_after ≡ some after
      → Delivers fetch (some after) rest n
      → Delivers fetch c (page.results ++ rest) (suc n)

-- What a page is asked for by, when it begins at an offset.
data Asks : Option String → ℕ → Type 0 where
  first : Asks none 0
  next : (n : ℕ) → Asks (some (show n)) n

module _ (fake_field : Fields) (read_float read_int : Json → Option Json)
    (parse_date : String → Option ℕ) (s : State) (object_name object_type org_id : String)
    (types : List SchemaField) (items : List Stored) (limit : ℕ) where
  abbrev pub mock_fetch : Option String → Result Page
  mock_fetch after =
      fetch_page read_float read_int parse_date (λ q. (serve fake_field q s).0) limit object_name
        after org_id none

  -- The records that the client makes of some of the server's.
  abbrev pub handed_on : List Stored → List JsonObject
  handed_on xs = normalise_results read_float read_int types org_id (render (wanted types) xs)

  abbrev the_page : ℕ → Page
  the_page o = record {
    results = handed_on (slice o limit items);
    next_after =
        if ltb (o + length (slice o limit items)) s.total_records
        then some (show (o + length (slice o limit items)))
        else none;
  }

-- Such pages are those that the theorem about the run asks for.
pub Delivers-Pages :
    {S : Type 0} (fetch : Option String → Result Page) (base : Option String → String)
    (on_page : S
      → Option String
      → List (JsonObject × String)
      → List String
      → ℕ
      → Option String
      → Action S)
    (job_id : ℕ) (c : Option String) (records : List JsonObject) (n : ℕ)
    → Delivers fetch c records n
    → Pages fetch base on_page job_id c n
Delivers-Pages fetch base on_page job_id c _ _ (final page e done) = last page e done
Delivers-Pages fetch base on_page job_id c _ _
      (further {rest = rest} {n = n} page after e found pages) =
    more page after e found (Delivers-Pages fetch base on_page job_id (some after) rest n pages)
