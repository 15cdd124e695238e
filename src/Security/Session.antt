-- ===== src/Security/Session.antt =====
-- How long a console session lasts.
use Prim.Native.Char.{code}
use Prim.Native.String.append.{nil, cons as append_cons}
use glynac_ingestion_platfor.Common.{
  ℕ, ◌+◌, ◌*◌, String, ◌<>◌, ◌≡◌, refl, ap, ◌∙◌, true, false, ◌&&◌, not, some, ◌==◌, ltb, leb,
  eq_refl, arith,
}
use glynac_ingestion_platfor.Common.Text.{codes, show}
use glynac_ingestion_platfor.Settings.{Settings}
use glynac_ingestion_platfor.Time.{all_digits}
use glynac_ingestion_platfor.Time.Digits.{show-Reads, all_digits-isdigit}
use glynac_ingestion_platfor.Security.{
  split_dot, session_sig, make_session_token, verify_session_token,
}

-- Digits before the first dot are split off whole.
split_dot-digits :
    (s t : String) → all_digits (codes s) ≡ true → split_dot (s <> "." <> t) ≡ some (s, t)
unfolding split_dot all_digits
split_dot-digits String.[] t h =
    ap split_dot (nil ("." <> t))
    ∙ ap split_dot (append_cons "." "" t)
    ∙ ap (λ r. some ("", r)) (nil t)
split_dot-digits (String.◌∷◌ c s) t h =
    let rest : all_digits (codes s) ≡ true = ground (arith, h) in
    let apart : (code c == b'.') ≡ false = ground (arith, h) in
    rw (append_cons c s ("." <> t), split_dot-digits s t rest, apart) refl

not_later : (a b : ℕ) → (not (ltb a b) && true) ≡ leb b a
not_later a b = ground arith

-- A session token that was made at a time `made` (in seconds) is accepted at the time `now` (in
-- microseconds) exactly when `now` is not later than the end of the session, with the secret unchanged.
pub session_lasts :
    (sha256 : String → String) (hmac : String → String → String) (upper : String → String)
    (s : Settings) (made now : ℕ)
    → verify_session_token sha256 hmac upper s
        (some (make_session_token sha256 hmac upper s made))
        now
      ≡ leb now ((made + s.session_ttl_seconds) * 1000000)
unfolding verify_session_token make_session_token
session_lasts sha256 hmac upper s made now =
    let end_ : ℕ = made + s.session_ttl_seconds in
    let (value, digits) = show-Reads end_ in
    let split =
      split_dot-digits (show end_) (session_sig sha256 hmac upper s (show end_))
        (all_digits-isdigit (codes (show end_)) digits) in
    rw (split, verify_session_token)
      (rw (digits, value, eq_refl (session_sig sha256 hmac upper s (show end_)))
        (not_later (end_ * 1000000) now))
