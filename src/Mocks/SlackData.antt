-- ===== src/Mocks/SlackData.antt =====
-- mock_services/slack.py: the workspace of the mock server, and the positions that its cursors hold, in
-- decimal digits.
use Prim.Native.Char.{code}
use glynac_ingestion_platfor.Common.{
  ℕ, zero, suc, ◌+◌, ◌-◌, ◌*◌, ◌%◌, String, ◌<>◌, Bool, false, ◌&&◌, Option, none, some, List, [],
  ◌∷◌, if◌then◌else◌, ◌==◌, ltb, str_eq, filter,
}
use glynac_ingestion_platfor.Common.Text.{show, codes}
use glynac_ingestion_platfor.Json.{JsonObject, num, text}
use glynac_ingestion_platfor.Time.{isdigit, digits_value}
use glynac_ingestion_platfor.Slack.{ts_value}
use glynac_ingestion_platfor.Slack.Client.{SlackMessage, Reaction}

-- CHANNELS
abbrev pub channels : List (String × String)
channels = ("C001", "general") ∷ ("C002", "compliance") ∷ ("C003", "sales") ∷ []

-- USERS
abbrev pub users : List (String × String × String)
users =
    ("U001", "alice", "Alice Smith")
    ∷ ("U002", "bob", "Bob Jones")
    ∷ ("U003", "carol", "Carol Wilson")
    ∷ []

-- `f"{i:05d}"`
unfoldable pub pad5 : ℕ → String
unfolding show
pad5 i =
    if ltb i 10
    then "0000" <> show i
    else if ltb i 100
    then "000" <> show i
    else if ltb i 1000
    then "00" <> show i
    else if ltb i 10000
    then "0" <> show i
    else show i

abbrev pub ts_of : ℕ → String
ts_of i = "170000" <> pad5 i <> ".000000"

abbrev files_of : ℕ → List JsonObject
files_of i =
    if i % 7 == 0
    then (("id", text ("F" <> show i <> "-0"))
        ∷ ("name", text ("report_" <> show i <> ".pdf"))
        ∷ ("filetype", text "pdf")
        ∷ ("size", num (1024 * (i + 1)))
        ∷ [])
      ∷ []
    else []

abbrev reactions_of : ℕ → List Reaction
reactions_of i =
    if i % 5 == 0 then record { name = text "thumbsup"; users = "U001" ∷ "U002" ∷ [] } ∷ [] else []

-- What `_message` adds to the parent of a thread.
abbrev thread_fields : ℕ → ℕ → JsonObject
thread_fields i total =
    if i % 3 == 0 && ltb i (total - 1)
    then ("thread_ts", text (ts_of i))
      ∷ ("reply_count", num 1)
      ∷ ("latest_reply", text ("170000" <> pad5 i <> ".100000"))
      ∷ []
    else []

-- `_message`
unfoldable pub message : String → ℕ → ℕ → SlackMessage
message channel i total = record {
  fields =
      ("type", text "message")
      ∷ ("user", text ("U00" <> show ((i % 3) + 1)))
      ∷ ("text", text ("Historical message " <> show i <> " from " <> channel))
      ∷ ("ts", text (ts_of i))
      ∷ thread_fields i total;
  files = files_of i;
  reactions = reactions_of i;
}

abbrev pub plain : JsonObject → SlackMessage
plain fields = record { fields = fields; files = []; reactions = [] }

-- `_reply`
unfoldable pub reply : String → ℕ → SlackMessage
reply channel i = plain (
    ("type", text "message")
    ∷ ("user", text "U002")
    ∷ ("text", text ("Thread reply to message " <> show i))
    ∷ ("ts", text ("170000" <> pad5 i <> ".100000"))
    ∷ ("thread_ts", text (ts_of i))
    ∷ [])

-- `range(total - 1, -1, -1)`
abbrev pub newest_first : ℕ → List ℕ
newest_first zero = []
newest_first (suc n) = n ∷ newest_first n

-- The messages that are later than a moment.
abbrev later_than : ℕ → ℕ → Bool
later_than oldest i = elim (ts_value (ts_of i)) [ none ↦ false | some t ↦ ltb oldest t ]

-- The numbers of the messages that are asked for; `float(oldest)` may fail.
unfoldable pub asked_for : ℕ → Option String → Option (List ℕ)
asked_for total none = some (newest_first total)
asked_for total (some oldest) =
    if str_eq oldest "" then some (newest_first total) else elim (ts_value oldest) [
      | none ↦ none
      | some t ↦ some (filter (later_than t) (newest_first total))
    ]

-- The text after the first ":".
unfoldable pub after_colon : String → Option String
after_colon String.[] = none
after_colon (String.◌∷◌ c s) = let rest = after_colon s in if code c == b':' then some s else rest

-- The text before the first ":", all of it where there is none.
unfoldable pub before_colon : String → String
before_colon String.[] = ""
before_colon (String.◌∷◌ c s) =
    let rest = before_colon s in if code c == b':' then "" else String.◌∷◌ c rest

-- `int(s.split(":")[1])`
unfoldable pub position_in : Option String → Option ℕ
unfolding after_colon before_colon
position_in none = none
position_in (some s) = elim (after_colon s) [
  | none ↦ none
  | some t ↦
      if isdigit (codes (before_colon t))
      then some (digits_value 0 (codes (before_colon t)))
      else none
]
