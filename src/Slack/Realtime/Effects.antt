-- ===== src/Slack/Realtime/Effects.antt =====
-- What the calls of the real-time stream leave of the state: most of them change neither a job, nor
-- the record of what was seen, nor the backlog, nor a checkpoint.
use glynac_ingestion_platfor.Common.{
  ℕ, String, ◌≡◌, refl, ◌∙◌, true, Option, none, some, List, [], ◌∷◌, arith,
}
use glynac_ingestion_platfor.Errors.{Exception, Result, ok, err, message, file_not_found_error}
use glynac_ingestion_platfor.Json.{JsonObject}
use glynac_ingestion_platfor.Models.{Job}
use glynac_ingestion_platfor.World.{
  World, Action, SchemaField, continue, pure, raise, modify, ◌>>=◌, skip, external,
}
use glynac_ingestion_platfor.World.Frame.{
  Preorder, Respects, respects_rules, Respects-pure, Respects-raise, Respects-gets, Respects-bind,
  Respects-if, Respects-lift, Respects-catch,
}
use glynac_ingestion_platfor.Audit.{log_audit, send_to_dead_letter}
use glynac_ingestion_platfor.Storage.{put_object, get_object}
use glynac_ingestion_platfor.Sink.{
  ensure_table, ensure_slack_views, insert_rows, read_landed, load_from_storage,
}
use glynac_ingestion_platfor.Slack.{
  write_parquet, ensure_each, ensure_slack_tables, load_into_clickhouse, Message,
}
use glynac_ingestion_platfor.Slack.Realtime.{
  advance_mark, raise_mark, count_once, ingest_row, ingest_rows, ingest_body, bury,
  ingest_realtime_event,
}

pub record Quiet (w w' : World) : Type 0 where
  pub same_jobs : w'.jobs ≡ w.jobs
  pub same_seen : w'.seen ≡ w.seen
  pub same_backlog : w'.backlog ≡ w.backlog
  pub same_checkpoints : w'.checkpoints ≡ w.checkpoints

pub Quiet-preorder : Preorder Quiet
Quiet-preorder = record {
  same = λ w. record {
    same_jobs = refl;
    same_seen = refl;
    same_backlog = refl;
    same_checkpoints = refl;
  };
  then_ = λ u v w p q. record {
    same_jobs = q.same_jobs ∙ p.same_jobs;
    same_seen = q.same_seen ∙ p.same_seen;
    same_backlog = q.same_backlog ∙ p.same_backlog;
    same_checkpoints = q.same_checkpoints ∙ p.same_checkpoints;
  };
}

-- A call and what follows it.
pub both {ℓ κ} :
    {A : Type ℓ} {B : Type κ} {m : Action A} {f : A → Action B}
    → Respects Quiet m
    → ((a : A) → Respects Quiet (f a))
    → Respects Quiet (m >>= f)
both {m = m} {f = f} hm hf = Respects-bind Quiet-preorder m f hm hf

Quiet-modify :
    (f : World → World)
    → ((w : World) → (f w).jobs ≡ w.jobs)
    → ((w : World) → (f w).seen ≡ w.seen)
    → ((w : World) → (f w).backlog ≡ w.backlog)
    → ((w : World) → (f w).checkpoints ≡ w.checkpoints)
    → Respects Quiet (modify f)
unfolding modify
Quiet-modify f a b c d = record {
  at = λ w. record { same_jobs = a w; same_seen = b w; same_backlog = c w; same_checkpoints = d w };
}

Quiet-external : Respects Quiet external
unfolding external
Quiet-external = record {
  at = λ w. record {
    same_jobs = ground arith;
    same_seen = ground arith;
    same_backlog = ground arith;
    same_checkpoints = ground arith;
  };
}

pub Quiet-log_audit :
    (job_id : ℕ) (event : String) (detail : Option String)
    → Respects Quiet (log_audit job_id event detail)
unfolding log_audit
Quiet-log_audit job_id event detail = Quiet-modify _ (λ w. refl) (λ w. refl) (λ w. refl) (λ w. refl)

Quiet-dead_letter :
    (job_id : ℕ) (letter : JsonObject) (reason : String)
    → Respects Quiet (send_to_dead_letter job_id letter reason)
unfolding send_to_dead_letter
Quiet-dead_letter job_id letter reason =
    both (Quiet-modify _ (λ w. refl) (λ w. refl) (λ w. refl) (λ w. refl))
      (λ _. Quiet-log_audit job_id "DEAD_LETTER" (some reason))

Quiet-put_object : (path : String) (rows : List JsonObject) → Respects Quiet (put_object path rows)
unfolding put_object
Quiet-put_object path rows =
    both Quiet-external (λ _. Quiet-modify _ (λ w. refl) (λ w. refl) (λ w. refl) (λ w. refl))

Quiet-found :
    (path : String) (found : Option (List JsonObject))
    → Respects {A = List JsonObject} Quiet
        (elim found [ none ↦ raise (file_not_found_error path) | some rows ↦ pure rows ])
Quiet-found path none = Respects-raise Quiet-preorder _
Quiet-found path (some rows) = Respects-pure Quiet-preorder rows

Quiet-get_object : (path : String) → Respects Quiet (get_object path)
unfolding get_object
Quiet-get_object path =
    both Quiet-external (λ _. both (Respects-gets Quiet-preorder _) (Quiet-found path))

Quiet-read_landed :
    (renames : List (String × String)) (schema : List SchemaField) (required paths : List String)
    → Respects Quiet (read_landed renames schema required paths)
unfolding read_landed
Quiet-read_landed renames schema required [] = Respects-pure Quiet-preorder []
Quiet-read_landed renames schema required (path ∷ paths) = both (Quiet-get_object path) (λ _.
    both (Quiet-read_landed renames schema required paths) (λ _. Respects-pure Quiet-preorder _))

Quiet-insert_rows :
    (object_name : String) (rows : List JsonObject) (service : String) (key_columns : List String)
    → Respects Quiet (insert_rows object_name rows service key_columns)
unfolding insert_rows
Quiet-insert_rows object_name rows service key_columns =
    Quiet-modify _ (λ w. refl) (λ w. refl) (λ w. refl) (λ w. refl)

Quiet-load_from_storage :
    (object_name : String) (schema : List SchemaField) (paths : List String) (service : String)
    (renames : List (String × String)) (required key_columns : List String)
    → Respects Quiet
        (load_from_storage object_name schema paths service renames required key_columns)
unfolding load_from_storage
Quiet-load_from_storage object_name schema paths service renames required key_columns =
    search (respects_rules, Quiet-preorder, Quiet-read_landed, Quiet-external, Quiet-insert_rows)

Quiet-ensure_table :
    (object_name : String) (schema : List SchemaField) (service : String)
    → Respects Quiet (ensure_table object_name schema service)
unfolding ensure_table
Quiet-ensure_table object_name schema service =
    both Quiet-external (λ _. Quiet-modify _ (λ w. refl) (λ w. refl) (λ w. refl) (λ w. refl))

Quiet-ensure_slack_views : Respects Quiet ensure_slack_views
unfolding ensure_slack_views
Quiet-ensure_slack_views =
    both Quiet-external (λ _. Quiet-modify _ (λ w. refl) (λ w. refl) (λ w. refl) (λ w. refl))

Quiet-ensure_each :
    (tables : List (String × List SchemaField)) → Respects Quiet (ensure_each tables)
unfolding ensure_each
Quiet-ensure_each [] = Respects-pure Quiet-preorder tt
Quiet-ensure_each ((table, schema) ∷ tables) =
    both (Quiet-ensure_table table schema "salesforce") (λ _. Quiet-ensure_each tables)

Quiet-ready : Respects Quiet (modify (λ w. record w { slack_tables_ready = true }))
Quiet-ready = Quiet-modify _ (λ w. refl) (λ w. refl) (λ w. refl) (λ w. refl)

Quiet-ensure_slack_tables : Respects Quiet ensure_slack_tables
unfolding ensure_slack_tables
Quiet-ensure_slack_tables =
    search
      (respects_rules, Quiet-preorder, Quiet-ensure_each, Quiet-ensure_slack_views, Quiet-ready)

pub Quiet-write_parquet :
    (path : String) (rows : List JsonObject) → Respects Quiet (write_parquet path rows)
unfolding write_parquet
Quiet-write_parquet path [] = Respects-pure Quiet-preorder tt
Quiet-write_parquet path (row ∷ rows) = Quiet-put_object path (row ∷ rows)

pub Quiet-load :
    (table : String) (paths : List String) (renames : List (String × String))
    → Respects Quiet (load_into_clickhouse table paths renames)
unfolding load_into_clickhouse
Quiet-load table [] renames = Respects-pure Quiet-preorder tt
Quiet-load table (path ∷ paths) renames =
    search (respects_rules, Quiet-preorder, Quiet-ensure_slack_tables, Quiet-load_from_storage)

pub Quiet-advance_mark :
    (org_id channel_id message_ts : String)
    → Respects Quiet (advance_mark org_id channel_id message_ts)
unfolding advance_mark raise_mark
Quiet-advance_mark org_id channel_id message_ts = both (Respects-gets Quiet-preorder _) (λ taken.
    Respects-if Quiet-preorder taken _ _
      (both (Respects-lift Quiet-preorder _)
        (λ t. Quiet-modify _ (λ w. refl) (λ w. refl) (λ w. refl) (λ w. refl)))
      (Quiet-modify _ (λ w. refl) (λ w. refl) (λ w. refl) (λ w. refl)))

Quiet-letter :
    (job_id : ℕ) (event : JsonObject) (exc : Exception) (job : Option Job)
    → Respects {A = Unit {0}} Quiet
        (elim job [ none ↦ skip | some j ↦ send_to_dead_letter job_id event (message exc) ])
Quiet-letter job_id event exc none = Respects-pure Quiet-preorder tt
Quiet-letter job_id event exc (some j) = Quiet-dead_letter job_id event (message exc)

pub Quiet-bury :
    (job_id : ℕ) (event : JsonObject) (exc : Exception) → Respects Quiet (bury job_id event exc)
unfolding bury
Quiet-bury job_id event exc =
    both (Respects-gets Quiet-preorder _)
      (λ job. both (Quiet-letter job_id event exc job) (λ _. Respects-raise Quiet-preorder exc))

-- What holds of a call still holds when quiet calls go before it, of which any may raise.
module _ {B : Type 0} (P : World → Result B × World → Type 0)
    (earlier : (w w' : World) (c : Result B × World) → Quiet w w' → P w' c → P w c)
    (raised : (w w' : World) (e : Exception) → Quiet w w' → P w (err e, w')) where
  pub after-Quiet :
      {A : Type 0} (m : Action A) (f : A → Action B)
      → Respects Quiet m
      → ((a : A) (w : World) → P w (f a w))
      → (w : World) → P w ((m >>= f) w)
  unfolding ◌>>=◌
  after-Quiet {A} m f hm hf w = go (m w) (hm.at w)
    where
      go : (c : Result A × World) → Quiet w c.1 → P w (continue c.0 f c.1)
      go (ok a, w') q = earlier w w' (f a w') q (hf a w')
      go (err e, w') q = raised w w' e q

-- A relation that quiet changes keep, and the counting of a message for the job `job_id`, is kept by
-- the whole ingestion of an event.
module _ {R : World → World → Type 0} (p : Preorder R) (job_id : ℕ)
    (quiet : (w w' : World) → Quiet w w' → R w w')
    (counts : (org_id message_id : String) → Respects R (count_once job_id org_id message_id)) where
  pub by-Quiet : {A : Type 0} (m : Action A) → Respects Quiet m → Respects R m
  by-Quiet m h = record { at = λ w. quiet w (m w).1 (h.at w) }

  Respects-ingest_row :
      (org_id : String) (row : Message) → Respects R (ingest_row job_id org_id row)
  unfolding ingest_row
  Respects-ingest_row org_id row = Respects-bind p _ _ (Respects-gets p _) λ path.
      Respects-bind p _ _ (by-Quiet _ (Quiet-write_parquet path _)) λ _.
        Respects-bind p _ _ (by-Quiet _ (Quiet-load "bronze_slack_messages" (path ∷ []) [])) λ _.
          Respects-bind p _ _ (counts org_id row.message_id) λ duplicate.
            Respects-bind p _ _
              (Respects-catch p _ _
                (by-Quiet _ (Quiet-advance_mark org_id row.channel_id row.message_ts))
                (λ _. Respects-pure p tt))
              λ _. Respects-pure p _

  Respects-ingest_rows :
      (org_id : String) (rows : List Message) → Respects R (ingest_rows job_id org_id rows)
  unfolding ingest_rows
  Respects-ingest_rows org_id [] = Respects-pure p _
  Respects-ingest_rows org_id (row ∷ rows) = Respects-ingest_row org_id row

  pub Respects-ingest_body :
      (event : JsonObject) (org_id : String) → Respects R (ingest_body job_id event org_id)
  unfolding ingest_body
  Respects-ingest_body event org_id = search (respects_rules, p, Respects-ingest_rows)

  pub Respects-ingest :
      (event : JsonObject) (org_id : String)
      → Respects R (ingest_realtime_event job_id event org_id)
  unfolding ingest_realtime_event
  Respects-ingest event org_id =
      search (respects_rules, p, Respects-ingest_body, by-Quiet, Quiet-bury)
