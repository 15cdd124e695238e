-- ===== src/Tests/Sink.antt =====
-- Loading rows into a table.
use glynac_ingestion_platfor.Common.{
  ℕ, String, ◌≡◌, refl, some, List, [], ◌∷◌, arith, find, count, ◌≤◌,
}
use glynac_ingestion_platfor.Json.{Json, JsonObject, text, num}
use glynac_ingestion_platfor.World.{World, modify}
use glynac_ingestion_platfor.Sink.Quoting.{read_literal, q_round_trip}
use glynac_ingestion_platfor.Sink.{q, key_of, table_name, insert_rows}
use glynac_ingestion_platfor.Sink.Rows.{
  at_key, find_last, or_else, stored, insert_rows_last_write_wins, insert_rows_replay,
}
use glynac_ingestion_platfor.Sink.Views.{
  Tables, client_row, client_360_deals, row_at, lower_name, matching_deals,
}
use glynac_ingestion_platfor.Sink.Tenants.{Grouped, client_360_deals-Grouped}
use glynac_ingestion_platfor.Tests.Base.{world_with}

abbrev deal : String → ℕ → JsonObject
deal id amount = ("id", text id) ∷ ("amount", num amount) ∷ []

abbrev deals : List JsonObject
deals = deal "d1" 5 ∷ deal "d2" 6 ∷ deal "d1" 7 ∷ []

abbrev loaded : World
loaded = record (world_with []) { tables = ("bronze_hubspot_deals", deal "d1" 1 ∷ []) ∷ [] }

abbrev d1 : List Json
d1 = text "d1" ∷ []

named : table_name "Deals" "hubspot" ≡ "bronze_hubspot_deals"
unfolding table_name
named = refl

newest_deal :
    find
      (at_key (key_of ("id" ∷ [])) d1)
      (stored "bronze_hubspot_deals" (insert_rows "Deals" deals "hubspot" ("id" ∷ []) loaded).1)
    ≡ some (deal "d1" 7)
unfolding insert_rows table_name modify
newest_deal = refl

one_row : count (at_key (key_of ("id" ∷ [])) d1) (stored (table_name "Deals" "hubspot") loaded) ≤ 1
unfolding table_name
one_row = omega arith

insert_rows_last_write_wins_example :
    let p = at_key (key_of ("id" ∷ [])) d1 in
    let table = table_name "Deals" "hubspot" in
    let w' = (insert_rows "Deals" deals "hubspot" ("id" ∷ []) loaded).1 in
    (find p (stored table w') ≡ or_else (find_last p deals) (find p (stored table loaded)))
    × (count p (stored table w') ≤ 1)
insert_rows_last_write_wins_example =
    insert_rows_last_write_wins "Deals" "hubspot" ("id" ∷ []) deals d1 loaded one_row

insert_rows_replay_example :
    let p = at_key (key_of ("id" ∷ [])) d1 in
    let table = table_name "Deals" "hubspot" in
    let w' = (insert_rows "Deals" deals "hubspot" ("id" ∷ []) loaded).1 in
    let w'' = (insert_rows "Deals" deals "hubspot" ("id" ∷ []) w').1 in
    find p (stored table w'') ≡ find p (stored table w')
insert_rows_replay_example =
    insert_rows_replay "Deals" "hubspot" ("id" ∷ []) deals d1 loaded one_row

q_round_trip_example : read_literal (q "O'Brien\\x") ≡ some "O'Brien\\x"
q_round_trip_example = q_round_trip "O'Brien\\x"

-- Two organisations with a company of one name.
abbrev company : String → String → JsonObject
company org id =
    ("id", text id) ∷ ("organisation_id", text org) ∷ ("name", text "APEX Capital") ∷ []

abbrev companies : List JsonObject
companies = company "org1" "c1" ∷ company "org2" "c2" ∷ []

abbrev sale : String → String → String → JsonObject
sale org company_id id =
    ("id", text id)
    ∷ ("organisation_id", text org)
    ∷ ("company_id", text company_id)
    ∷ ("deal_name", text id)
    ∷ []

abbrev sales : List JsonObject
sales = sale "org1" "c1" "d1" ∷ sale "org2" "c2" "d2" ∷ []

abbrev account : JsonObject
account = ("id", text "a1") ∷ ("organisation_id", text "org1") ∷ ("name", text "Apex Capital") ∷ []

abbrev opportunity : String → JsonObject
opportunity account_id =
    ("id", text "o1") ∷ ("organisation_id", text "org1") ∷ ("account_id", text account_id) ∷ []

abbrev opportunities : List JsonObject
opportunities = opportunity "a1" ∷ opportunity "a2" ∷ []

abbrev two_tenants : Tables
two_tenants =
    ("bronze_hubspot_companies", companies)
    ∷ ("bronze_hubspot_deals", sales)
    ∷ ("bronze_salesforce_accounts", account ∷ [])
    ∷ ("bronze_salesforce_opportunities", opportunities)
    ∷ []

abbrev joined : List JsonObject
joined =
    client_row (opportunity "a1") account (sale "org1" "c1" "d1")
    ∷ client_row (opportunity "a2") [] []
    ∷ []

view_joins : client_360_deals two_tenants ≡ some joined
unfolding client_360_deals row_at lower_name matching_deals
view_joins = refl

client_360_deals-Grouped_example : Grouped companies sales (account ∷ []) opportunities joined
client_360_deals-Grouped_example = client_360_deals-Grouped two_tenants joined view_joins
