-- ===== src/Slack/Realtime/CatchUp.antt =====
-- app/slack/engine.py: the gap after an outage is read from the history of
-- each channel with a mark. The client is a parameter: `fetch_page channel_id cursor oldest` is what
-- `_fetch_page` returns or raises.
use glynac_ingestion_platfor.Common.{
  ℕ, zero, suc, ◌+◌, String, true, false, Option, none, some, List, [], ◌∷◌, if◌then◌else◌, map,
  filter, leb, str_eq, ◌≡◌, length,
}
use glynac_ingestion_platfor.Errors.{Result, ok, err, value_error}
use glynac_ingestion_platfor.Json.{JsonObject, item, str}
use glynac_ingestion_platfor.Models.{Job, RealtimeMark}
use glynac_ingestion_platfor.World.{World, Action, pure, gets, lift, ◌>>=◌, ◌>>◌, find_job}
use glynac_ingestion_platfor.World.Frame.{
  Respects, Respects-pure, Respects-bind, Respects-lift, Respects-gets, Respects-if,
}
use glynac_ingestion_platfor.Slack.{ts_value}
use glynac_ingestion_platfor.Slack.Client.{HistoryPage, SlackMessage}
use glynac_ingestion_platfor.Slack.Realtime.{
  Ingested, ignored, ingested, event_fields, ingest_realtime_event,
}
use glynac_ingestion_platfor.Slack.Realtime.Once.{
  SeenOnce, Counted, Counted-preorder, Counted-ingest,
}

-- `_ts_value(m["message_ts"])`
unfoldable pub sort_key : JsonObject → Result ℕ
sort_key m = elim (item "message_ts" m) [
  | err e ↦ err e
  | ok ts ↦ elim (ts_value (str ts)) [ none ↦ err (value_error "not a number") | some t ↦ ok t ]
]

unfoldable pub with_keys : List JsonObject → Result (List (ℕ × JsonObject))
with_keys [] = ok []
with_keys (m ∷ ms) = elim (sort_key m) [
  | err e ↦ err e
  | ok t ↦ elim (with_keys ms) [ err e ↦ err e | ok rest ↦ ok ((t, m) ∷ rest) ]
]

unfoldable pub put_in_order : ℕ × JsonObject → List (ℕ × JsonObject) → List (ℕ × JsonObject)
put_in_order x [] = x ∷ []
put_in_order x (y ∷ ys) =
    let rest = put_in_order x ys in if leb x.0 y.0 then x ∷ y ∷ ys else y ∷ rest

unfoldable pub sorted : List (ℕ × JsonObject) → List (ℕ × JsonObject)
sorted [] = []
sorted (x ∷ xs) = put_in_order x (sorted xs)

-- `0 if result.get("duplicate") else 1`
abbrev pub news : Ingested → ℕ
news ignored = 1
news (ingested true message_id path) = 0
news (ingested false message_id path) = 1

-- The messages of a page, oldest first.
unfoldable pub ingest_each : ℕ → String → List JsonObject → ℕ → Action ℕ
ingest_each job_id org_id [] caught = pure caught
ingest_each job_id org_id (m ∷ ms) caught = do
  result ← ingest_realtime_event job_id (event_fields m) org_id
  ingest_each job_id org_id ms (caught + news result)

unfoldable pub next_channel : (ℕ → Action (Option ℕ)) → Option ℕ → Action (Option ℕ)
next_channel again none = pure none
next_channel again (some caught) = again caught

module _ (fetch_page : String → Option String → String → Result HistoryPage) where
  -- The pages of one channel, on fuel.
  unfoldable pub catch_up_channel :
      ℕ → ℕ → String → String → String → Option String → ℕ → Action (Option ℕ)
  catch_up_channel zero job_id org_id channel_id oldest cursor caught = pure none
  catch_up_channel (suc fuel) job_id org_id channel_id oldest cursor caught = do
    page ← lift (fetch_page channel_id cursor oldest)
    messages ← lift (with_keys (map (λ (m : SlackMessage). m.fields) page.messages))
    caught ← ingest_each job_id org_id (map (λ (x : ℕ × JsonObject). x.1) (sorted messages)) caught
    if page.has_more
        then catch_up_channel fuel job_id org_id channel_id oldest page.next_cursor caught
        else pure (some caught)

  -- The channels, in the order of their marks.
  unfoldable pub catch_up_each : ℕ → ℕ → String → List RealtimeMark → ℕ → Action (Option ℕ)
  catch_up_each fuel job_id org_id [] caught = pure (some caught)
  catch_up_each fuel job_id org_id (m ∷ marks) caught =
      catch_up_channel fuel job_id org_id m.channel_id m.message_ts none caught
      >>= next_channel (catch_up_each fuel job_id org_id marks)

  -- Without a mark there is nothing to read.
  unfoldable pub catch_up_marks :
      ℕ → Result (Unit {0}) → ℕ → String → List RealtimeMark → Action (Option ℕ)
  catch_up_marks fuel authenticate job_id org_id [] = pure (some 0)
  catch_up_marks fuel authenticate job_id org_id (m ∷ marks) = do
    lift authenticate
    catch_up_each fuel job_id org_id (m ∷ marks) 0

  -- `catch_up`: the result is `none` when the fuel for the pages of a channel ran out.
  unfoldable pub catch_up : ℕ → Result (Unit {0}) → ℕ → String → Action (Option ℕ)
  catch_up fuel authenticate job_id org_id = do
    marks ← gets (λ w. filter (λ (m : RealtimeMark). str_eq m.org_id org_id) w.marks)
    catch_up_marks fuel authenticate job_id org_id marks

  module _ (k : ℕ) (org_id : String) where
    Counted-ingest_each :
        (ms : List JsonObject) (caught : ℕ) → Respects (Counted k) (ingest_each k org_id ms caught)
    unfolding ingest_each
    Counted-ingest_each [] caught = Respects-pure (Counted-preorder k) caught
    Counted-ingest_each (m ∷ ms) caught =
        Respects-bind (Counted-preorder k) _ _ (Counted-ingest k (event_fields m) org_id)
          λ result. Counted-ingest_each ms (caught + news result)

    Counted-channel :
        (fuel : ℕ) (channel_id oldest : String) (cursor : Option String) (caught : ℕ)
        → Respects (Counted k) (catch_up_channel fuel k org_id channel_id oldest cursor caught)
    unfolding catch_up_channel
    Counted-channel zero channel_id oldest cursor caught = Respects-pure (Counted-preorder k) none
    Counted-channel (suc fuel) channel_id oldest cursor caught =
        Respects-bind (Counted-preorder k) _ _ (Respects-lift (Counted-preorder k) _) λ page.
          Respects-bind (Counted-preorder k) _ _ (Respects-lift (Counted-preorder k) _) λ messages.
            Respects-bind (Counted-preorder k) _ _ (Counted-ingest_each _ caught) λ n.
              Respects-if (Counted-preorder k) page.has_more _ _
                (Counted-channel fuel channel_id oldest page.next_cursor n)
                (Respects-pure (Counted-preorder k) (some n))

    Counted-next :
        (again : ℕ → Action (Option ℕ))
        → ((n : ℕ) → Respects (Counted k) (again n))
        → (r : Option ℕ) → Respects (Counted k) (next_channel again r)
    unfolding next_channel
    Counted-next again h none = Respects-pure (Counted-preorder k) none
    Counted-next again h (some n) = h n

    Counted-each :
        (fuel : ℕ) (marks : List RealtimeMark) (caught : ℕ)
        → Respects (Counted k) (catch_up_each fuel k org_id marks caught)
    unfolding catch_up_each
    Counted-each fuel [] caught = Respects-pure (Counted-preorder k) (some caught)
    Counted-each fuel (m ∷ marks) caught =
        Respects-bind (Counted-preorder k) _ _
          (Counted-channel fuel m.channel_id m.message_ts none caught)
          (Counted-next (catch_up_each fuel k org_id marks) (Counted-each fuel marks))

    Counted-marks :
        (fuel : ℕ) (authenticate : Result (Unit {0})) (marks : List RealtimeMark)
        → Respects (Counted k) (catch_up_marks fuel authenticate k org_id marks)
    unfolding catch_up_marks
    Counted-marks fuel authenticate [] = Respects-pure (Counted-preorder k) (some 0)
    Counted-marks fuel authenticate (m ∷ marks) =
        Respects-bind (Counted-preorder k) _ _ (Respects-lift (Counted-preorder k) authenticate)
          λ _. Counted-each fuel (m ∷ marks) 0

-- Whatever the history holds, however far it overlaps with what was ingested before, and wherever the
-- catch-up raises: the job stays in the table, its count of rows grows by exactly the number of
-- messages that are newly recorded as seen, and no message is recorded twice.
pub catch_up_counts_once :
    (fetch_page : String → Option String → String → Result HistoryPage) (fuel : ℕ)
    (authenticate : Result (Unit {0})) (k : ℕ) (org_id : String) (w : World) (j : Job)
    → find_job k w ≡ some j
    → SeenOnce w
    → let w' = (catch_up fetch_page fuel authenticate k org_id w).1 in
      ((j' : Job) × (find_job k w' ≡ some j')
        × (j'.row_count + length w.seen ≡ j.row_count + length w'.seen))
      × SeenOnce w'
unfolding catch_up
catch_up_counts_once fetch_page fuel authenticate k org_id w j found once =
    let c =
      (Respects-bind (Counted-preorder k) _ _ (Respects-gets (Counted-preorder k) _)
          (Counted-marks fetch_page k org_id fuel authenticate)).at
        w in
    (c.grown j found, c.once once)
