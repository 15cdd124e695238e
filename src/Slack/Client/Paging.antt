-- ===== src/Slack/Client/Paging.antt =====
-- What the client makes of the answers: which failures are tried again, and that paging collects
-- every page.
use mathlib.Core.List.{append_assoc}
use glynac_ingestion_platfor.Common.{
  ℕ, zero, suc, ◌≤◌, ◌<◌, String, ◌≡◌, ap, ◌∙◌, Bool, false, ◌&&◌, ◌||◌, Option, none, some, List,
  [], ◌∷◌, ◌++◌, ◌==◌, leb, ltb, str_eq, arith,
}
use glynac_ingestion_platfor.Errors.{Result, ok, err}
use glynac_ingestion_platfor.Retry.{is_transient}
use glynac_ingestion_platfor.Slack.Client.{
  Answer, SlackMessage, Parameters, cursor_or_none, call, paged,
}

abbrev is_ratelimited : Option String → Bool
is_ratelimited none = false
is_ratelimited (some error) = str_eq error "ratelimited"

-- A failure that passes: a 429, a server error, or a body that says "ratelimited".
abbrev pub temporary : Answer → Bool
temporary resp =
    resp.status == 429 || leb 500 resp.status || ltb resp.status 400 && is_ratelimited resp.error

-- What an answer has to mean.
abbrev pub Classified : Answer → Result Answer → Type 0
Classified resp (ok body) = (body ≡ resp) × (resp.status < 400) × (resp.error ≡ none)
Classified resp (err e) = is_transient e ≡ temporary resp

-- The server has `n` pages from a cursor on, which hold these items; `page_at` asks for a page.
pub data Chain (page_at : Option String → Result Answer)
    : Option String → List SlackMessage → ℕ → Type 0 where
  last :
      {c : Option String} (body : Answer)
      → page_at c ≡ ok body
      → cursor_or_none body.next_cursor ≡ none
      → Chain page_at c body.items 1
  more :
      {c : Option String} {rest : List SlackMessage} {n : ℕ} (body : Answer) (next : String)
      → page_at c ≡ ok body
      → cursor_or_none body.next_cursor ≡ some next
      → Chain page_at (some next) rest n
      → Chain page_at c (body.items ++ rest) (suc n)

module _ (parse_date : String → Option ℕ) (http : String → Parameters → Answer)
    (method : String) where
  -- A page of a list, as the client asks for it.
  abbrev pub page_at : Option String → Result Answer
  page_at cursor = call parse_date http method (("cursor", cursor) ∷ ("limit", some "200") ∷ [])

  -- With fuel for the pages that the server has, paging returns the items of all of them, each once
  -- and in their order, after those that it had before.
  pub paged_collects :
      (fuel n : ℕ) (out items : List SlackMessage) (c : Option String)
      → Chain page_at c items n
      → n ≤ fuel
      → paged parse_date http fuel method out c ≡ some (ok (out ++ items))
  unfolding paged
  paged_collects zero _ out _ c (last body e done) bound = ground arith
  paged_collects zero _ out _ c (more body next e found rest) bound = ground arith
  paged_collects (suc fuel) _ out _ c (last body e done) bound = rw (e, paged, done)
  paged_collects (suc fuel) _ out _ c (more {rest = items} {n = n} body next e found rest) bound =
      rw (e, paged, found)
        (paged_collects fuel n (out ++ body.items) items (some next) rest (omega (arith, bound))
          ∙ ap (λ xs. some (ok xs)) (append_assoc out body.items items))
