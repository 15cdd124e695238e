-- ===== src/Mocks/Slack/Pages.antt =====
-- The client against the mock server: the pages of a channel's history.
use mathlib.Core.Path.{subst}
use Prim.Native.Char.{Char, code}
use Prim.Native.String.append.{nil, cons as append_cons}
use glynac_ingestion_platfor.Common.{
  ℕ, zero, suc, ◌+◌, ◌≤◌, ◌<◌, String, ◌<>◌, ◌≡◌, refl, sym, ap, ◌∙◌, true, false, Option, none,
  some, List, [], ◌∷◌, ◌++◌, length, map, any, ltb, ltb→lt, arith, inl, inr, Bool-cases, ◌==◌,
  str_eq,
}
use glynac_ingestion_platfor.Common.Text.{show, codes}
use glynac_ingestion_platfor.Errors.{Result, ok}
use glynac_ingestion_platfor.Time.{all_digits}
use glynac_ingestion_platfor.Time.Digits.{show-Reads, all_digits-isdigit}
use glynac_ingestion_platfor.Slack.Client.{SlackMessage, Answer, Parameters, call, read_answer}
use glynac_ingestion_platfor.Slack.Client.Paging.{Chain, last, more}
use glynac_ingestion_platfor.Mocks.Slices.{slice, drop, slice-next, slice_last, slice_advances}
use glynac_ingestion_platfor.Mocks.SlackData.{
  channels, newest_first, message, position_in, after_colon, before_colon, asked_for,
}
use glynac_ingestion_platfor.Mocks.Slack.{
  State, mock_slack_token, encode, decode, history_page, history_at, history, endpoint, gate, serve,
  remove_bearer, after_prefix,
}

length-newest_first : (n : ℕ) → length (newest_first n) ≡ n
length-newest_first zero = refl
length-newest_first (suc n) = ap suc (length-newest_first n)

before_colon-digits : (s : String) → all_digits (codes s) ≡ true → before_colon s ≡ s
unfolding before_colon all_digits
before_colon-digits String.[] h = refl
before_colon-digits (String.◌∷◌ c s) h =
    let rest : all_digits (codes s) ≡ true = ground (arith, h) in
    let apart : (code c == b':') ≡ false = ground (arith, h) in
    rw (apart, before_colon, before_colon-digits s rest) refl

after_colon-pos : (t : String) → after_colon ("pos:" <> t) ≡ some t
unfolding after_colon
after_colon-pos t =
    rw
      (
        append_cons "p" "os:" t,
        append_cons "o" "s:" t,
        append_cons "s" ":" t,
        append_cons ":" "" t,
        nil t,
      )
      refl

-- The position that a cursor's text holds.
position_in-pos : (n : ℕ) → position_in (some ("pos:" <> show n)) ≡ some n
unfolding position_in
position_in-pos n =
    let (value, digits) = show-Reads n in
    let all = all_digits-isdigit (codes (show n)) digits in
    rw (after_colon-pos (show n), position_in)
      (rw (before_colon-digits (show n) all) (rw (digits, value) refl))

-- What a page is asked for by, when it begins at a position.
data Asks (encode_ : ℕ → String) : Option String → ℕ → Type 0 where
  first : Asks encode_ none 0
  next : (n : ℕ) → Asks encode_ (some (encode_ n)) n

-- base64 is decoded to what was encoded, and a text that is not empty is not encoded to an empty one.
module _ (b64encode : String → String) (b64decode : String → Option String)
    (decoded : (s : String) → b64decode (b64encode s) ≡ some s)
    (filled : (c : Char) (s : String) → str_eq (b64encode (String.◌∷◌ c s)) "" ≡ false) where
  encode-filled : (n : ℕ) → str_eq (encode b64encode b64decode n) "" ≡ false
  unfolding encode
  encode-filled n = rw (append_cons "p" "os:" (show n)) (filled "p" ("os:" <> show n))

  -- A cursor that the server hands out is read as the position it was made of.
  decode-encode :
      (n : ℕ) → decode b64encode b64decode (some (encode b64encode b64decode n)) ≡ some n
  unfolding decode encode
  decode-encode n = rw (encode-filled n) (rw (decoded ("pos:" <> show n)) (position_in-pos n))

  decode-Asks :
      (c : Option String) (o : ℕ)
      → Asks (encode b64encode b64decode) c o
      → decode b64encode b64decode c ≡ some o
  unfolding decode
  decode-Asks _ _ first = refl
  decode-Asks _ o (next n) = decode-encode n

  module _ (parse_date : String → Option ℕ) (s : State) (channel : String) (limit : ℕ) where
    -- The server's answers to requests with the right token.
    abbrev http : String → Parameters → Answer
    http method params = (serve b64encode b64decode mock_slack_token method params s).0

    -- The client's request for a page of the channel.
    abbrev pub mock_history : Option String → Result Answer
    mock_history cursor = call parse_date http "conversations.history" (
        ("channel", some channel)
        ∷ ("cursor", cursor)
        ∷ ("limit", some (show limit))
        ∷ ("oldest", none)
        ∷ [])

    abbrev numbers : List ℕ
    numbers = newest_first s.messages_per_channel

    abbrev pub messages_of : List ℕ → List SlackMessage
    messages_of = map (λ i. message channel i s.messages_per_channel)

    abbrev the_page : ℕ → Answer
    the_page o = history_page b64encode b64decode channel s.messages_per_channel o limit numbers

    module _ (calm : s.fail_with_429 ≡ 0) (steady : s.fail_with_500 ≡ 0)
        (known : any (λ (c : String × String). str_eq channel c.0) channels ≡ true) where
      gate_open :
          (method : String)
          → gate method mock_slack_token s
            ≡ (none, record s { requests_seen = s.requests_seen ++ method ∷ [] })
      unfolding gate remove_bearer after_prefix
      gate_open method = rw (calm, gate, steady) refl

      history_served :
          (c : Option String) (o : ℕ)
          → Asks (encode b64encode b64decode) c o
          → history b64encode b64decode channel c limit none s.messages_per_channel ≡ the_page o
      unfolding history history_at asked_for
      history_served c o a = rw (known, history) (rw (decode-Asks c o a) refl)

      abbrev parameters : Option String → Parameters
      parameters cursor =
          ("channel", some channel)
          ∷ ("cursor", cursor)
          ∷ ("limit", some (show limit))
          ∷ ("oldest", none)
          ∷ []

      served :
          (c : Option String) (o : ℕ)
          → Asks (encode b64encode b64decode) c o
          → (serve b64encode b64decode mock_slack_token "conversations.history" (parameters c) s).0
            ≡ the_page o
      unfolding serve endpoint
      served c o a =
          rw (gate_open "conversations.history", serve)
            (rw ((show-Reads limit).0) (history_served c o a))

      fetched :
          (c : Option String) (o : ℕ)
          → Asks (encode b64encode b64decode) c o
          → mock_history c ≡ ok (the_page o)
      unfolding call read_answer history_page
      fetched c o a = ap (read_answer parse_date http "conversations.history") (served c o a)

      messages_of-append :
          (xs ys : List ℕ) → messages_of (xs ++ ys) ≡ messages_of xs ++ messages_of ys
      messages_of-append [] ys = refl
      messages_of-append (x ∷ xs) ys =
          ap (λ ms. message channel x s.messages_per_channel ∷ ms) (messages_of-append xs ys)

      -- From a position on.
      Chain-from :
          1 ≤ limit
          → (fuel o : ℕ) (c : Option String) → Asks (encode b64encode b64decode) c o
          → o ≤ s.messages_per_channel
          → s.messages_per_channel < o + fuel
          → (n : ℕ) × Chain mock_history c (messages_of (drop o numbers)) n × (n ≤ fuel)
      unfolding history_page
      Chain-from size zero o c a bound fuel_bound = ground (arith, bound, fuel_bound)
      Chain-from size (suc fuel) o c a bound fuel_bound =
          let m : ℕ = o + length (slice o limit numbers) in
          let total = length-newest_first s.messages_per_channel in
          elim (Bool-cases (ltb m (length numbers))) [
            | inl more_left ↦
                let below : m < length numbers = ltb→lt m (length numbers) more_left in
                let forward = slice_advances o limit numbers size (omega (arith, below)) in
                let (n, rest, few) =
                  Chain-from size fuel m (some (encode b64encode b64decode m)) (next m)
                    (omega (arith, below, total)) (omega (arith, forward, fuel_bound)) in
                (
                  suc n,
                  subst (λ ms. Chain mock_history c ms (suc n))
                      (sym (messages_of-append (slice o limit numbers) (drop m numbers))
                        ∙ ap messages_of (slice-next o limit numbers))
                      (more (the_page o) (encode b64encode b64decode m) (fetched c o a)
                        (rw (more_left) (rw (encode-filled m) refl)) rest),
                  omega (arith, few),
                )
            | inr done ↦ (
              1,
              subst (λ ms. Chain mock_history c ms 1)
                  (ap messages_of (slice_last o limit numbers (ground (arith, done))))
                  (last (the_page o) (fetched c o a) (rw done refl)),
              omega arith,
            )
          ]

      -- The mock server, when it injects no error and knows the channel, against the client that asks for
      -- the channel's history with the right token and a page size of at least 1: from the start it has a
      -- number of pages, at most one more than the channel has messages, and they hold all of its
      -- messages, the newest first, each once. Of base64 it is assumed that a text is decoded to what was
      -- encoded, and that no text but the empty one is encoded to the empty text.
      pub mock_history-Chain :
          1 ≤ limit
          → (n : ℕ) × Chain mock_history none (messages_of numbers) n
            × (n ≤ suc s.messages_per_channel)
      mock_history-Chain size =
          Chain-from size (suc s.messages_per_channel) 0 none first (omega arith) (omega arith)
