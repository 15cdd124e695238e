-- ===== src/Slack/Client.antt =====
-- app/slack/client.py: the Slack Web API client. The HTTP library is a parameter, `http`: what the
-- server answers to a call of a method with these parameters. The fields of a JSON body that the
-- client reads stand in `Answer`; `items` is the list under the key that the caller asks for.
pub mod Paging
use glynac_ingestion_platfor.Common.{
  ℕ, zero, suc, String, ◌<>◌, Bool, true, false, ◌&&◌, not, Option, none, some, List, [], ◌∷◌, ◌++◌,
  if◌then◌else◌, ◌==◌, leb, any, str_eq,
}
use glynac_ingestion_platfor.Common.Text.{show, first_chars}
use glynac_ingestion_platfor.Errors.{
  Exception, transient_error, rate_limit_error, api_error, Result, ok, err,
}
use glynac_ingestion_platfor.Errors.RetryAfter.{parse_retry_after, retry_hint}
use glynac_ingestion_platfor.Json.{
  Json, JsonObject, null, text, get, has_key, item, str, is_falsy, or_default,
}

-- A reaction, of the users who gave it.
pub record Reaction : Type 0 where
  pub name : Json
  pub users : List String

-- A dict of a message, with the two lists that it may hold.
pub record SlackMessage : Type 0 where
  pub fields : JsonObject
  pub files : List JsonObject
  pub reactions : List Reaction

-- What a call answers. `error` is none where the body has `"ok": true`.
pub record Answer : Type 0 where
  pub status : ℕ
  pub retry_after : Option String
  pub body_text : String
  pub error : Option String
  pub items : List SlackMessage
  pub next_cursor : Option String

abbrev pub Parameters : Type 0
Parameters = List (String × Option String)

-- `_AUTH_ERRORS`
unfoldable pub auth_errors : List String
auth_errors =
    "invalid_auth" ∷ "not_authed" ∷ "token_revoked" ∷ "account_inactive" ∷ "token_expired" ∷ []

-- What an error that Slack reports in the body means.
unfoldable pub body_error : String → String → Exception
unfolding auth_errors
body_error method error =
    if any (str_eq error) auth_errors
    then api_error (method <> ": authentication failed (" <> error <> ")")
    else if str_eq error "ratelimited"
    then rate_limit_error (method <> ": rate limited") none
    else api_error (method <> ": " <> error)

-- `x or None`, for a cursor
abbrev pub cursor_or_none : Option String → Option String
cursor_or_none none = none
cursor_or_none (some s) = if str_eq s "" then none else some s

-- `c["id"]` and `c["name"]`
abbrev pub channel_row : SlackMessage → Result JsonObject
channel_row c = elim (item "id" c.fields) [
  | err e ↦ err e
  | ok id ↦ elim (item "name" c.fields) [
    | err e ↦ err e
    | ok name ↦ ok (("id", id) ∷ ("name", name) ∷ [])
  ]
]

-- The dict of a user.
abbrev pub user_row : SlackMessage → Result JsonObject
user_row u = elim (channel_row u) [
  | err e ↦ err e
  | ok row ↦ ok (
      row
      ++ ("real_name", if has_key "real_name" u.fields then get "real_name" u.fields else text "")
        ∷ [])
]

-- Every dict, or the first exception.
unfoldable pub all_rows :
    (SlackMessage → Result JsonObject) → List SlackMessage → Result (List JsonObject)
all_rows row [] = ok []
all_rows row (m ∷ ms) = elim (row m) [
  | err e ↦ err e
  | ok r ↦ elim (all_rows row ms) [ err e ↦ err e | ok rs ↦ ok (r ∷ rs) ]
]

abbrev json_eq_text : Json → Json → Bool
json_eq_text (text s) (text t) = str_eq s t
json_eq_text _ _ = false

-- `thread_ts if thread_ts and thread_ts != ts else None`
abbrev pub thread_of : Json → Json → Json
thread_of thread_ts ts =
    if not (is_falsy thread_ts) && not (json_eq_text thread_ts ts) then thread_ts else null

-- `_flatten`
unfoldable pub flatten : String → SlackMessage → Result SlackMessage
flatten channel_id msg = elim (item "ts" msg.fields) [
  | err e ↦ err e
  | ok ts ↦ ok (record {
    fields =
        ("id", text (channel_id <> ":" <> str ts))
        ∷ ("channel_id", text channel_id)
        ∷ ("user_id", or_default (get "user" msg.fields) (get "bot_id" msg.fields))
        ∷ ("text", if has_key "text" msg.fields then get "text" msg.fields else text "")
        ∷ ("message_ts", ts)
        ∷ ("thread_ts", thread_of (get "thread_ts" msg.fields) ts)
        ∷ [];
    files = msg.files;
    reactions = msg.reactions;
  })
]

unfoldable pub flatten_all : String → List SlackMessage → Result (List SlackMessage)
flatten_all channel_id [] = ok []
flatten_all channel_id (m ∷ ms) = elim (flatten channel_id m) [
  | err e ↦ err e
  | ok f ↦ elim (flatten_all channel_id ms) [ err e ↦ err e | ok fs ↦ ok (f ∷ fs) ]
]

-- The replies of a thread without their parent.
unfoldable pub without_parent : Json → List SlackMessage → List SlackMessage
without_parent ts [] = []
without_parent ts (r ∷ replies) =
    let rest = without_parent ts replies in
    if json_eq_text (get "ts" r.fields) ts then rest else r ∷ rest

-- What `fetch_history` returns.
pub record HistoryPage : Type 0 where
  pub messages : List SlackMessage
  pub next_cursor : Option String
  pub has_more : Bool

abbrev pub is_some : Option String → Bool
is_some none = false
is_some (some _) = true

module _ (parse_date : String → Option ℕ) (http : String → Parameters → Answer) where
  -- What an answer means: the body, or an exception.
  unfoldable pub read_answer : String → Answer → Result Answer
  read_answer method resp =
      if resp.status == 429
      then err (
          rate_limit_error
            (method
              <> ": rate limited (429"
              <> retry_hint (parse_retry_after parse_date resp.retry_after)
              <> ")")
            (parse_retry_after parse_date resp.retry_after))
      else if leb 500 resp.status
      then err (transient_error (method <> ": server error " <> show resp.status))
      else if leb 400 resp.status
      then err (
          api_error
            (method <> ": HTTP " <> show resp.status <> " " <> first_chars 200 resp.body_text))
      else elim resp.error [ none ↦ ok resp | some error ↦ err (body_error method error) ]

  -- `_call`: parameters that are None are left out.
  unfoldable pub call : String → Parameters → Result Answer
  call method params = read_answer method (http method params)

  -- `authenticate`
  unfoldable pub authenticate : Result (Unit {0})
  authenticate = elim (call "auth.test" []) [ err e ↦ err e | ok body ↦ ok tt ]

  -- `_paged`, on fuel: `none` when it ran out.
  unfoldable pub paged :
      ℕ → String → List SlackMessage → Option String → Option (Result (List SlackMessage))
  paged zero method out cursor = none
  paged (suc fuel) method out cursor =
      elim (call method (("cursor", cursor) ∷ ("limit", some "200") ∷ [])) [
        | err e ↦ some (err e)
        | ok body ↦ elim (cursor_or_none body.next_cursor) [
          | none ↦ some (ok (out ++ body.items))
          | some next ↦ paged fuel method (out ++ body.items) (some next)
        ]
      ]

  abbrev rows_of :
      (SlackMessage → Result JsonObject)
      → Option (Result (List SlackMessage))
      → Option (Result (List JsonObject))
  rows_of row none = none
  rows_of row (some (err e)) = some (err e)
  rows_of row (some (ok ms)) = some (all_rows row ms)

  -- `list_channels`
  unfoldable pub list_channels : ℕ → Option (Result (List JsonObject))
  list_channels fuel = rows_of channel_row (paged fuel "conversations.list" [] none)

  -- `list_users`
  unfoldable pub list_users : ℕ → Option (Result (List JsonObject))
  list_users fuel = rows_of user_row (paged fuel "users.list" [] none)

  -- The replies of one parent, flattened.
  unfoldable pub thread_replies : String → SlackMessage → Result (List SlackMessage)
  thread_replies channel_id parent =
      if is_falsy (get "reply_count" parent.fields) then ok [] else elim (item "ts" parent.fields) [
        | err e ↦ err e
        | ok ts ↦
            elim (call "conversations.replies"
              (("channel", some channel_id) ∷ ("ts", some (str ts)) ∷ [])) [
                | err e ↦ err e
                | ok body ↦ flatten_all channel_id (without_parent ts body.items)
              ]
      ]

  -- The loop over the parents.
  unfoldable pub all_replies : String → List SlackMessage → Result (List SlackMessage)
  all_replies channel_id [] = ok []
  all_replies channel_id (parent ∷ parents) = elim (thread_replies channel_id parent) [
    | err e ↦ err e
    | ok replies ↦ elim (all_replies channel_id parents) [
      | err e ↦ err e
      | ok rest ↦ ok (replies ++ rest)
    ]
  ]

  -- `fetch_history`
  unfoldable pub fetch_history : String → Option String → ℕ → Option String → Result HistoryPage
  fetch_history channel_id cursor page_size oldest =
      elim (call "conversations.history" (
        ("channel", some channel_id)
        ∷ ("cursor", cursor)
        ∷ ("limit", some (show page_size))
        ∷ ("oldest", oldest)
        ∷ [])) [
          | err e ↦ err e
          | ok body ↦ elim (flatten_all channel_id body.items) [
            | err e ↦ err e
            | ok messages ↦ elim (all_replies channel_id body.items) [
              | err e ↦ err e
              | ok replies ↦ ok (record {
                messages = messages ++ replies;
                next_cursor = cursor_or_none body.next_cursor;
                has_more = is_some (cursor_or_none body.next_cursor);
              })
            ]
          ]
        ]
