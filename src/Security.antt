-- ===== src/Security.antt =====
-- app/security.py: signed requests and console sessions. SHA-256 and HMAC-SHA256 (Python's hashlib
-- and hmac) are parameters; texts stand for bytes, and digests are their hexadecimal texts.
pub mod Replay
pub mod Session
use Prim.Native.Char.{code}
use glynac_ingestion_platfor.Common.{
  ℕ, suc, ◌+◌, ◌-◌, ◌*◌, ◌/◌, String, ◌<>◌, Bool, true, false, ◌&&◌, ◌||◌, not, Option, none, some,
  List, [], ◌∷◌, ◌++◌, ◌==◌, if◌then◌else◌, str_eq, ltb, leb, filter, any, length,
}
use glynac_ingestion_platfor.Common.Text.{strip, codes, show}
use glynac_ingestion_platfor.Errors.{
  Exception, Result, ok, err, http_exception, configuration_error,
}
use glynac_ingestion_platfor.Models.{UsedNonce}
use glynac_ingestion_platfor.World.{Action, pure, raise, lift, ◌>>=◌, ◌>>◌}
use glynac_ingestion_platfor.Settings.{Settings}
use glynac_ingestion_platfor.Time.{isdigit, digits_value}

abbrev pub dev_default_secret : String
dev_default_secret = "dev-secret-do-not-use-in-prod"

-- `validate_security_settings`
unfoldable pub validate_security_settings : Settings → Result (Unit {0})
unfolding strip
validate_security_settings s =
    let secret = strip s.hmac_secret in
    if str_eq secret "" || str_eq secret dev_default_secret
    then err (configuration_error "HMAC_SECRET is empty or the well-known development default.")
    else if str_eq (strip s.hmac_client_id) ""
    then err (configuration_error "HMAC_CLIENT_ID is empty.")
    else ok tt

-- The characters of `_NONCE_RE`.
nonce_char : ℕ → Bool
nonce_char c =
    (leb b'A' c && leb c b'Z')
    || (leb b'a' c && leb c b'z')
    || (leb b'0' c && leb c b'9')
    || c == b'_'
    || c == b'-'

-- The rest of a nonce of which n characters are read: `$` also matches before a final line feed.
nonce_rest : ℕ → List ℕ → Bool
unfolding nonce_char
nonce_rest n [] = leb 16 n && leb n 128
nonce_rest n (c ∷ cs) =
    let rest = nonce_rest (suc n) cs in
    if nonce_char c then rest else leb 16 n && leb n 128 && c == 10 && length cs == 0

-- `_NONCE_RE.match(nonce)`
unfoldable pub valid_nonce : String → Bool
unfolding nonce_rest
valid_nonce nonce = nonce_rest 0 (codes nonce)

-- A number with its sign, as `int(s)` reads it: `some (true, n)` is -n. (The underscores that
-- Python allows between digits are not read.)
unfoldable pub parse_int : String → Option (Bool × ℕ)
unfolding strip isdigit digits_value
parse_int s = elim (codes (strip s)) [
  | [] ↦ none
  | c ∷ cs ↦
      if c == b'-'
      then (if isdigit cs then some (true, digits_value 0 cs) else none)
      else if c == b'+'
      then (if isdigit cs then some (false, digits_value 0 cs) else none)
      else if isdigit (c ∷ cs)
      then some (false, digits_value 0 (c ∷ cs))
      else none
]

abbrev upper_code : ℕ → ℕ
upper_code c = if leb b'a' c && leb c b'z' then c - 32 else c

-- An HTTP request as the dependency sees it. `checked_at` is `time.time()` at the freshness test,
-- in microseconds, and `recorded_at` is `int(time.time())` when the nonce is stored, in seconds.
pub record Request : Type 0 where
  pub session : Option String
  pub client_id : Option String
  pub timestamp : Option String
  pub nonce : Option String
  pub signature : Option String
  pub method : String
  pub raw_path : Option String
  pub url_path : String
  pub query_string : String
  pub body : String
  pub checked_at : ℕ
  pub recorded_at : ℕ

-- `raw_path.split("?", 1)[0]`
before_query : String → String
before_query String.[] = ""
before_query (String.◌∷◌ c s) =
    let rest = before_query s in if code c == b'?' then "" else String.◌∷◌ c rest

abbrev path_of : Request → String
path_of r = elim r.raw_path [
  | none ↦ r.url_path
  | some p ↦ if str_eq p "" then r.url_path else before_query p
]

-- `_request_target`
unfoldable pub request_target : Request → String
unfolding before_query
request_target r =
    if str_eq r.query_string "" then path_of r else path_of r <> "?" <> r.query_string

-- `_reject`
abbrev pub reject : String → Exception
reject detail = http_exception 401 detail

-- |a - b| for numbers of microseconds
abbrev pub gap : ℕ → ℕ → ℕ
gap a b = (a - b) + (b - a)

-- `abs(time.time() - ts_int) > settings.signature_max_age_seconds`
unfoldable pub stale : Settings → ℕ → Bool × ℕ → Bool
stale s now (true, n) = ltb (s.signature_max_age_seconds * 1000000) (now + n * 1000000)
stale s now (false, n) = ltb (s.signature_max_age_seconds * 1000000) (gap now (n * 1000000))

abbrev pub is_nonce : String → String → UsedNonce → Bool
is_nonce client_id nonce r = str_eq r.client_id client_id && str_eq r.nonce nonce

-- The rows that the purge keeps: those not older than two windows.
abbrev pub kept : Settings → ℕ → UsedNonce → Bool
kept s now r = leb now (r.seen_at + 2 * s.signature_max_age_seconds)

-- `_remember_nonce`: on a used nonce the whole transaction is rolled back, the purge too.
unfoldable pub remember_nonce : Settings → String → String → ℕ → Action (Unit {0})
remember_nonce s client_id nonce now w =
    let rows = filter (kept s now) w.nonces in
    if any (is_nonce client_id nonce) rows
    then (err (reject "Replayed request (nonce already used)."), w)
    else (
      ok tt,
      record w {
        nonces = rows ++ record { client_id = client_id; nonce = nonce; seen_at = now } ∷ [];
      },
    )

-- The four headers, where all are present and none is empty.
pub record Headers : Type 0 where
  pub client_id : String
  pub timestamp : String
  pub nonce : String
  pub signature : String

unfoldable pub headers : Request → Option Headers
headers r = elim r.client_id [
  | none ↦ none
  | some c ↦ elim r.timestamp [
    | none ↦ none
    | some t ↦ elim r.nonce [
      | none ↦ none
      | some n ↦ elim r.signature [
        | none ↦ none
        | some g ↦
            if str_eq c "" || str_eq t "" || str_eq n "" || str_eq g ""
            then none
            else some (record { client_id = c; timestamp = t; nonce = n; signature = g })
      ]
    ]
  ]
]

-- The text before and after the first "."
unfoldable pub split_dot : String → Option (String × String)
split_dot String.[] = none
split_dot (String.◌∷◌ c s) =
    let rest = split_dot s in
    if code c == b'.'
    then some ("", s)
    else elim rest [ none ↦ none | some (a, b) ↦ some (String.◌∷◌ c a, b) ]

-- The tests of the signature and of the nonce, which follow those of the headers.
module _ (sha256 : String → String) (hmac : String → String → String)
    (upper : String → String) where
  -- `canonical_string`
  unfoldable pub canonical_string : String → String → String → String → String → String → String
  canonical_string method target timestamp nonce client_id body =
      upper method
      <> "\n"
      <> target
      <> "\n"
      <> timestamp
      <> "\n"
      <> nonce
      <> "\n"
      <> client_id
      <> "\n"
      <> sha256 body

  -- `compute_signature`
  unfoldable pub compute_signature :
      String → String → String → String → String → String → String → String
  compute_signature secret method target timestamp nonce client_id body =
      hmac secret (canonical_string method target timestamp nonce client_id body)

  -- `_session_sig`
  unfoldable pub session_sig : Settings → String → String
  session_sig s expiry = hmac s.hmac_secret ("session:" <> expiry)

  -- `make_session_token`, at `now` in seconds
  unfoldable pub make_session_token : Settings → ℕ → String
  unfolding session_sig
  make_session_token s now =
      let expiry = show (now + s.session_ttl_seconds) in expiry <> "." <> session_sig s expiry

  -- `verify_session_token`, at `now` in microseconds
  unfoldable pub verify_session_token : Settings → Option String → ℕ → Bool
  unfolding session_sig split_dot isdigit digits_value
  verify_session_token s none now = false
  verify_session_token s (some token) now = elim (split_dot token) [
    | none ↦ false
    | some (expiry, sig) ↦
        isdigit (codes expiry)
        && not (ltb (digits_value 0 (codes expiry) * 1000000) now)
        && str_eq (session_sig s expiry) sig
  ]

  -- The tests that follow once the headers are there.
  unfoldable pub check_headers : Settings → Request → Headers → Result (Unit {0})
  check_headers s r h = elim (parse_int h.timestamp) [
    | none ↦ err (reject "Invalid timestamp.")
    | some ts ↦
        if stale s r.checked_at ts
        then err (reject "Stale request.")
        else if not (valid_nonce h.nonce)
        then err (reject "Invalid nonce (use 16-128 characters from A-Z a-z 0-9 _ -).")
        else if str_eq
              (compute_signature s.hmac_secret r.method (request_target r) h.timestamp h.nonce
                h.client_id r.body)
              h.signature
            && str_eq h.client_id s.hmac_client_id
        then ok tt
        else err (reject "Bad signature.")
  ]

  -- `require_signed_request`
  unfoldable pub require_signed_request : Settings → Request → Action (Unit {0})
  require_signed_request s r =
      if verify_session_token s r.session r.checked_at then pure tt else elim (headers r) [
        | none ↦ raise (reject "Missing X-Client-Id / X-Timestamp / X-Nonce / X-Signature headers.")
        | some h ↦ lift (check_headers s r h) >> remember_nonce s h.client_id h.nonce r.recorded_at
      ]
