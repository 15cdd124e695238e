-- ===== src/Sink/Tenants.antt =====
-- What the rows of v_client_360_deals join, in NullClickHouseSink of app/clickhouse_sink.py.
use mathlib.Core.Path.{subst}
use mathlib.Core.List.{Memᴰ}
use glynac_ingestion_platfor.Common.{
  String, ◌≡◌, refl, sym, ◌∙◌, ap, Bool, true, false, ◌&&◌, inl, inr, Option, none, some, List, [],
  ◌∷◌, ◌++◌, map, filter, str_eq, eq_iff, All, All-append, Memᴰ-All, Bool-cases, Option-cases,
}
use glynac_ingestion_platfor.Json.{JsonObject, get}
use glynac_ingestion_platfor.Sink.{canon, json_eq, rows_of}
use glynac_ingestion_platfor.Sink.Views.{
  Tables, lower_name, named, same_org, deal_of, matching_deals, or_one_empty, client_row,
  account_of, client_rows, client_360_deals,
}

-- One of the deals belongs to an opportunity of an account: it is of the same organisation, and of one of the companies, of this
-- organisation that has the name of the account, in small letters.
abbrev pub Match : List JsonObject → List JsonObject → JsonObject → JsonObject → JsonObject → Type 0
Match companies deals o a h =
    Memᴰ h deals
    × (same_org h o ≡ true)
    × (c : JsonObject) × Memᴰ c companies
    × (json_eq (canon (get "company_id" h)) (canon (get "id" c)) ≡ true)
    × (same_org c o ≡ true)
    × (lower_name (get "name" c) ≡ lower_name (get "name" a))

-- One group of rows for each opportunity, in their order: a row for each of some matching deals, or one
-- row without a deal.
pub data Grouped (companies all_deals accounts : List JsonObject)
    : List JsonObject → List JsonObject → Type 0 where
  done : Grouped companies all_deals accounts [] []
  group :
      {os rows : List JsonObject} (o : JsonObject) (deals : List JsonObject)
      → All (Match companies all_deals o (account_of accounts o)) deals
      → Grouped companies all_deals accounts os rows
      → Grouped companies all_deals accounts
          (o ∷ os)
          (map (client_row o (account_of accounts o)) (or_one_empty deals) ++ rows)

-- A company stands beside its name, and is one of the companies.
abbrev Named : List JsonObject → String × JsonObject → Type 0
Named all p = (lower_name (get "name" p.1) ≡ some p.0) × Memᴰ p.1 all

abbrev AllNamed : List JsonObject → Option (List (String × JsonObject)) → Type 0
AllNamed all none = Unit
AllNamed all (some ps) = All (Named all) ps

named-All :
    (all companies : List JsonObject) (ps : List (String × JsonObject))
    → All (λ c. Memᴰ c all) companies
    → named companies ≡ some ps
    → All (Named all) ps
unfolding named
named-All all [] [] inside h = tt
named-All all [] (p ∷ ps) inside h = cc
named-All all (c ∷ companies) ps (here, inside) h =
    elim (Option-cases (lower_name (get "name" c))) [
      | inl bad ↦ let clash : none ≡ some ps = sym (rw (bad, named) refl) ∙ h in cc clash
      | inr (name, good) ↦ elim (Option-cases (named companies)) [
        | inl bad ↦ let clash : none ≡ some ps = sym (rw (good, named, bad) refl) ∙ h in cc clash
        | inr (rest, e) ↦
            let made : some ((name, c) ∷ rest) ≡ some ps = sym (rw (good, named, e) refl) ∙ h in
            subst (AllNamed all) made ((good, here), named-All all companies rest inside e)
      ]
    ]

and_both : (a b : Bool) → (a && b) ≡ true → (a ≡ true) × (b ≡ true)
and_both true true h = (refl, refl)
and_both true false h = cc
and_both false b h = cc

abbrev rows_or_empty : Option (List JsonObject) → List JsonObject
rows_or_empty none = []
rows_or_empty (some rows) = rows

module _ (all all_deals : List JsonObject) where
  filter-All :
      (o a c : JsonObject)
      → Memᴰ c all
      → same_org c o ≡ true
      → lower_name (get "name" c) ≡ lower_name (get "name" a)
      → (deals : List JsonObject) → All (λ d. Memᴰ d all_deals) deals
      → All (Match all all_deals o a) (filter (deal_of o c) deals)
  filter-All o a c known org name [] _ = tt
  filter-All o a c known org name (d ∷ deals) (there, inside) = elim (Bool-cases (deal_of o c d)) [
    | inl here ↦
        let both =
          and_both (same_org d o) (json_eq (canon (get "company_id" d)) (canon (get "id" c)))
            here in
        rw here (
          (there, both.0, c, known, both.1, org, name),
          filter-All o a c known org name deals inside,
        )
    | inr away ↦ rw away (filter-All o a c known org name deals inside)
  ]

  matching_deals-All :
      (o a : JsonObject) (name : String)
      → lower_name (get "name" a) ≡ some name
      → (companies : List (String × JsonObject)) → All (Named all) companies
      → All (Match all all_deals o a) (matching_deals o name all_deals companies)
  unfolding matching_deals
  matching_deals-All o a name at [] _ = tt
  matching_deals-All o a name at ((n, c) ∷ companies) ((this, known), others) =
      let rest = matching_deals-All o a name at companies others in
      elim (Bool-cases (same_org c o && str_eq n name)) [
        | inl here ↦
            let both = and_both (same_org c o) (str_eq n name) here in
            rw here (
              All-append (Match all all_deals o a) (filter (deal_of o c) all_deals)
                (matching_deals o name all_deals companies)
                (filter-All o a c known both.0 (this ∙ ap some ((eq_iff n name).0 both.1) ∙ sym at)
                  all_deals (Memᴰ-All all_deals))
                rest)
        | inr away ↦ rw away rest
      ]

  rows-Grouped :
      (accounts : List JsonObject) (companies : List (String × JsonObject))
      → All (Named all) companies
      → (opportunities rows : List JsonObject)
      → client_rows accounts all_deals companies opportunities ≡ some rows
      → Grouped all all_deals accounts opportunities rows
  unfolding client_rows
  rows-Grouped accounts companies good [] rows h =
      let e : [] ≡ rows = ap rows_or_empty h in subst (Grouped all all_deals accounts []) e done
  rows-Grouped accounts companies good (o ∷ os) rows h =
      elim (Option-cases (lower_name (get "name" (account_of accounts o)))) [
        | inl bad ↦ let clash : none ≡ some rows = sym (rw (bad, client_rows) refl) ∙ h in cc clash
        | inr (name, at) ↦ elim (Option-cases (client_rows accounts all_deals companies os)) [
          | inl bad ↦
              let clash : none ≡ some rows = sym (rw (at, client_rows, bad) refl) ∙ h in cc clash
          | inr (rest, e) ↦
              let hs = matching_deals o name all_deals companies in
              let made : some (map (client_row o (account_of accounts o)) (or_one_empty hs) ++ rest)
                  ≡ some rows =
                sym (rw (at, client_rows, e) refl) ∙ h in
              subst (Grouped all all_deals accounts (o ∷ os)) (ap rows_or_empty made) (
                group o hs (matching_deals-All o (account_of accounts o) name at companies good)
                  (rows-Grouped accounts companies good os rest e))
        ]
      ]

-- The view over the opportunities of Salesforce and the deals of HubSpot, computed from the tables of all
-- organisations: its rows stand in groups, one group for each opportunity in order and none empty, so no
-- opportunity is lost; a deal that stands in a row is one of the deals, of the same organisation as the
-- opportunity, and of a company of this organisation that has the name of the opportunity's account.
pub client_360_deals-Grouped :
    (tables : Tables) (rows : List JsonObject)
    → client_360_deals tables ≡ some rows
    → Grouped
        (rows_of "bronze_hubspot_companies" tables)
        (rows_of "bronze_hubspot_deals" tables)
        (rows_of "bronze_salesforce_accounts" tables)
        (rows_of "bronze_salesforce_opportunities" tables)
        rows
unfolding client_360_deals
client_360_deals-Grouped tables rows h =
    let all = rows_of "bronze_hubspot_companies" tables in
    elim (Option-cases (named all)) [
      | inl bad ↦
          let clash : none ≡ some rows = sym (rw (bad, client_360_deals) refl) ∙ h in cc clash
      | inr (companies, good) ↦
          rows-Grouped all (rows_of "bronze_hubspot_deals" tables)
            (rows_of "bronze_salesforce_accounts" tables) companies
            (named-All all all companies (Memᴰ-All all) good)
            (rows_of "bronze_salesforce_opportunities" tables) rows
            (sym (rw (good, client_360_deals) refl) ∙ h)
    ]
