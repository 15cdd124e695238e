-- ===== src/Tests/Security.antt =====
-- Signed requests.
use glynac_ingestion_platfor.Common.{
  ℕ, ◌*◌, String, ◌<>◌, ◌≡◌, refl, true, false, none, some, [], arith,
}
use glynac_ingestion_platfor.Errors.{is_ok}
use glynac_ingestion_platfor.World.{◌>>=◌}
use glynac_ingestion_platfor.Security.{
  Request, Headers, headers, verify_session_token, require_signed_request, check_headers,
  remember_nonce, stale, valid_nonce, parse_int, request_target, compute_signature,
  canonical_string,
}
use glynac_ingestion_platfor.Security.Replay.{serve, replay_rejected}
use glynac_ingestion_platfor.Routers.Auth.{login, Answered, login-Answered}
use glynac_ingestion_platfor.Settings.{Settings}
use glynac_ingestion_platfor.Tests.Base.{world_with, deployed}

-- Stand-ins for the digests.
abbrev sha : String → String
sha s = s

abbrev mac : String → String → String
mac key s = key <> s

abbrev upper : String → String
upper s = s

abbrev request : ℕ → Request
request now = record {
  session = none;
  client_id = some "glynac-client";
  timestamp = some "100";
  nonce = some "abcdefgh-1234_ABCD";
  signature = some (mac "s3cret" "GET\n/api/jobs\n100\nabcdefgh-1234_ABCD\nglynac-client\n");
  method = "GET";
  raw_path = none;
  url_path = "/api/jobs";
  query_string = "";
  body = "";
  checked_at = now * 1_000_000;
  recorded_at = now;
}

abbrev shown : Headers
shown = record {
  client_id = "glynac-client";
  timestamp = "100";
  nonce = "abcdefgh-1234_ABCD";
  signature = mac "s3cret" "GET\n/api/jobs\n100\nabcdefgh-1234_ABCD\nglynac-client\n";
}

no_session :
    (now : ℕ)
    → verify_session_token sha mac upper deployed (request now).session (now * 1_000_000) ≡ false
unfolding verify_session_token
no_session now = refl

has_headers : (now : ℕ) → headers (request now) ≡ some shown
unfolding headers
has_headers now = refl

accepted :
    is_ok (require_signed_request sha mac upper deployed (request 101) (world_with [])).0 ≡ true
unfolding require_signed_request check_headers remember_nonce stale valid_nonce parse_int
    request_target compute_signature canonical_string headers verify_session_token ◌>>=◌
accepted = refl

replay_rejected_example :
    is_ok
      (require_signed_request sha mac upper deployed (request 390) (
        serve sha mac upper deployed []
          (require_signed_request sha mac upper deployed (request 101) (world_with [])).1)).0
    ≡ false
replay_rejected_example =
    replay_rejected sha mac upper deployed (request 101) (request 390) shown [] (world_with [])
      (no_session 101) (no_session 390) (has_headers 101) (has_headers 390) accepted tt
      (omega arith) (omega arith)

abbrev with_password : Settings
with_password = record deployed { ui_password = "open" }

login-Answered_example :
    Answered sha mac upper with_password "open" 100 (login sha mac upper with_password "open" 100)
login-Answered_example = login-Answered sha mac upper with_password "open" 100
