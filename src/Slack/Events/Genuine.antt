-- ===== src/Slack/Events/Genuine.antt =====
-- Which requests pass the check of app/slack/events.py.
use Prim.Native.String.append.{cons as append_cons}
use glynac_ingestion_platfor.Common.{
  ℕ, ◌*◌, ◌≤◌, String, ◌<>◌, ◌≡◌, refl, sym, true, false, Option, none, some, arith, str_eq, eq_iff,
  eq_refl,
}
use glynac_ingestion_platfor.Common.Text.{codes, cons_filled}
use glynac_ingestion_platfor.Time.{isdigit, digits_value}
use glynac_ingestion_platfor.Security.{gap}
use glynac_ingestion_platfor.Slack.Events.{sign, matches, verify}

module _ (hmac_sha256 : String → String → String) where
  -- The signature is Slack's under the secret, `v0=` before the digest of `v0:timestamp:body`, and the time
  -- stamp, in digits, is at most five minutes from the arrival.
  abbrev pub IsSigned : String → String → String → String → ℕ → Type 0
  IsSigned secret timestamp signature body now =
      (isdigit (codes timestamp) ≡ true)
      × (gap now (digits_value 0 (codes timestamp) * 1000000) ≤ 300 * 1000000)
      × (signature ≡ "v0=" <> hmac_sha256 secret ("v0:" <> timestamp <> ":" <> body))

  -- Both headers are there, and the body is signed.
  abbrev pub Genuine : String → Option String → Option String → String → ℕ → Type 0
  Genuine secret timestamp signature body now =
      (t : String) × (timestamp ≡ some t)
      × (g : String) × (signature ≡ some g)
      × IsSigned secret t g body now

  sign-filled :
      (secret timestamp body : String) → str_eq (sign hmac_sha256 secret timestamp body) "" ≡ false
  unfolding sign
  sign-filled secret timestamp body =
      let rest = hmac_sha256 secret ("v0:" <> timestamp <> ":" <> body) in
      rw (append_cons "v" "0=" rest) (cons_filled "v" ("0=" <> rest))

  digits_filled : (s : String) → isdigit (codes s) ≡ true → str_eq s "" ≡ false
  unfolding isdigit
  digits_filled String.[] h = cc
  digits_filled (String.◌∷◌ c s) h = cons_filled c s

  -- A signed body is accepted.
  pub signed-verify :
      (secret timestamp signature body : String) (now : ℕ)
      → IsSigned secret timestamp signature body now
      → verify hmac_sha256 secret (some timestamp) (some signature) body now ≡ true
  unfolding verify matches sign
  signed-verify secret timestamp signature body now (digits, near, same) =
      let filled : str_eq ("v0=" <> hmac_sha256 secret ("v0:" <> timestamp <> ":" <> body)) ""
          ≡ false =
        sign-filled secret timestamp body in
      rw
        (
          same,
          digits_filled timestamp digits,
          filled,
          digits,
          eq_refl (sign hmac_sha256 secret timestamp body),
        )
        (ground (arith, near))

  matches-IsSigned :
      (secret timestamp signature body : String) (now : ℕ)
      → matches hmac_sha256 secret timestamp signature body now ≡ true
      → IsSigned secret timestamp signature body now
  unfolding matches sign
  matches-IsSigned secret timestamp signature body now h = (
    ground (arith, h),
    ground (arith, h),
    sym ((eq_iff (sign hmac_sha256 secret timestamp body) signature).0 (ground (arith, h))),
  )

  -- What is accepted is genuine.
  pub verify-Genuine :
      (secret : String) (timestamp signature : Option String) (body : String) (now : ℕ)
      → verify hmac_sha256 secret timestamp signature body now ≡ true
      → Genuine secret timestamp signature body now
  unfolding verify
  verify-Genuine secret none signature body now h = cc
  verify-Genuine secret (some t) none body now h = cc
  verify-Genuine secret (some t) (some g) body now h =
      (t, refl, g, refl, matches-IsSigned secret t g body now h)

  -- What is genuine is accepted.
  pub Genuine-verify :
      (secret : String) (timestamp signature : Option String) (body : String) (now : ℕ)
      → Genuine secret timestamp signature body now
      → verify hmac_sha256 secret timestamp signature body now ≡ true
  Genuine-verify secret timestamp signature body now (t, at, g, by, signed) =
      rw (at, by) (signed-verify secret t g body now signed)
