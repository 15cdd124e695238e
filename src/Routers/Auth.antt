-- ===== src/Routers/Auth.antt =====
-- app/routers/auth.py: the password login of the console. The cookie is the token that the browser sends
-- back. SHA-256 and HMAC-SHA256 are parameters, as in app/security.py.
use glynac_ingestion_platfor.Common.{
  ℕ, ◌+◌, ◌*◌, String, ◌≡◌, refl, Bool, false, not, ◌⊎◌, inl, inr, Option, none, some,
  if◌then◌else◌, leb, str_eq, Bool-cases, eq_iff,
}
use glynac_ingestion_platfor.Errors.{Exception, Result, ok, err, http_exception}
use glynac_ingestion_platfor.Settings.{Settings}
use glynac_ingestion_platfor.Security.{make_session_token, verify_session_token}
use glynac_ingestion_platfor.Security.Session.{session_lasts}

abbrev login_disabled : Exception
login_disabled = http_exception 503 "UI login is disabled: set UI_PASSWORD in .env"

abbrev wrong_password : Exception
wrong_password = http_exception 401 "Wrong password"

module _ (sha256 : String → String) (hmac : String → String → String)
    (upper : String → String) where
  -- `login`, at `now` in seconds: the cookie that is set.
  unfoldable pub login : Settings → String → ℕ → Result (Option String)
  login s password now =
      if str_eq s.ui_password ""
      then err login_disabled
      else if not (str_eq password s.ui_password)
      then err wrong_password
      else ok (some (make_session_token sha256 hmac upper s now))

  -- `logout`: no cookie is left.
  abbrev pub logout : Result (Option String)
  logout = ok none

  -- `me`, at `now` in microseconds
  unfoldable pub me : Settings → Option String → ℕ → Bool
  me s cookie now = verify_session_token sha256 hmac upper s cookie now

  -- What a login has to mean, at a time `made` in seconds.
  abbrev pub Answered : Settings → String → ℕ → Result (Option String) → Type 0
  Answered s password made (ok cookie) =
      (str_eq s.ui_password "" ≡ false)
      × (password ≡ s.ui_password)
      × ((now : ℕ) → me s cookie now ≡ leb now ((made + s.session_ttl_seconds) * 1000000))
  Answered s password made (err e) =
      ((e ≡ login_disabled) × (s.ui_password ≡ ""))
      ⊎ ((e ≡ wrong_password)
          × (str_eq s.ui_password "" ≡ false)
          × (str_eq password s.ui_password ≡ false))

  -- A login succeeds only with the password that is set, never while none is; the cookie that it sets is
  -- then accepted at exactly the times up to the end of the session, with the settings unchanged. While
  -- no password is set every login is refused with 503; only while one is set, a wrong password is refused
  -- with 401.
  pub login-Answered :
      (s : Settings) (password : String) (made : ℕ)
      → Answered s password made (login s password made)
  unfolding login me
  login-Answered s password made = elim (Bool-cases (str_eq s.ui_password "")) [
    | inl disabled ↦ rw disabled (inl (refl, (eq_iff s.ui_password "").0 disabled))
    | inr enabled ↦ elim (Bool-cases (str_eq password s.ui_password)) [
      | inl right ↦
          rw (enabled, right)
            (
              enabled,
              (eq_iff password s.ui_password).0 right,
              λ now. session_lasts sha256 hmac upper s made now,
            )
      | inr wrong ↦ rw (enabled, wrong) (inr (refl, enabled, wrong))
    ]
  ]
