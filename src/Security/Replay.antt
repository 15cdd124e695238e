-- ===== src/Security/Replay.antt =====
-- A nonce serves once.
use glynac_ingestion_platfor.Common.{
  ℕ, ◌+◌, ◌*◌, ◌≤◌, ◌<◌, String, ◌≡◌, refl, sym, ◌∙◌, inl, inr, true, false, ◌&&◌, Bool, some, List,
  [], ◌∷◌, arith, any, filter, any-append, eq_refl, Bool-cases, Option-cases, All, leb, ap, ◌⊎◌,
}
use glynac_ingestion_platfor.Errors.{Exception, Result, ok, err, is_ok}
use glynac_ingestion_platfor.Models.{UsedNonce}
use glynac_ingestion_platfor.World.{World, ◌>>=◌}
use glynac_ingestion_platfor.Settings.{Settings}
use glynac_ingestion_platfor.Security.{
  stale, is_nonce, kept, remember_nonce, parse_int, Request, require_signed_request, check_headers,
  headers, verify_session_token, Headers,
}

-- The nonce is on record, at `since` or later.
abbrev pub Remembers : String → String → ℕ → World → Type 0
Remembers client_id nonce since w =
    any (λ r. is_nonce client_id nonce r && leb since r.seen_at) w.nonces ≡ true

Result-cases : (r : Result (Unit {0})) → ((e : Exception) × (r ≡ err e)) ⊎ (r ≡ ok tt)
Result-cases (err e) = inl (e, refl)
Result-cases (ok tt) = inr refl

any-filter :
    (p q : UsedNonce → Bool)
    → ((r : UsedNonce) → p r ≡ true → q r ≡ true)
    → (xs : List UsedNonce) → any p xs ≡ true
    → any p (filter q xs) ≡ true
any-filter p q sub [] h = cc
any-filter p q sub (x ∷ xs) h = ground (arith, sub x, any-filter p q sub xs)

module _ (s : Settings) (client_id nonce : String) (since : ℕ) where
  -- A request recorded within two windows of `since` purges no row of that age.
  remember_nonce-Remembers :
      (c n : String) (now : ℕ) (w : World)
      → now ≤ since + 2 * s.signature_max_age_seconds
      → Remembers client_id nonce since w
      → Remembers client_id nonce since (remember_nonce s c n now w).1
  unfolding remember_nonce
  remember_nonce-Remembers c n now w fresh h =
      let test : UsedNonce → Bool = λ r. is_nonce client_id nonce r && leb since r.seen_at in
      ground (
        arith,
        any-filter test (kept s now) (λ r e. ground arith) w.nonces h,
        any-append test (filter (kept s now) w.nonces)
            (record { client_id = c; nonce = n; seen_at = now } ∷ []),
      )

  any-weaken :
      (xs : List UsedNonce)
      → any (λ r. is_nonce client_id nonce r && leb since r.seen_at) xs ≡ true
      → any (is_nonce client_id nonce) xs ≡ true
  any-weaken [] h = cc
  any-weaken (x ∷ xs) h = ground (arith, any-weaken xs)

  -- A nonce on record is refused.
  remember_nonce-refuses :
      (now : ℕ) (w : World)
      → now ≤ since + 2 * s.signature_max_age_seconds
      → Remembers client_id nonce since w
      → is_ok (remember_nonce s client_id nonce now w).0 ≡ false
  unfolding remember_nonce
  remember_nonce-refuses now w fresh h =
      let test : UsedNonce → Bool = λ r. is_nonce client_id nonce r && leb since r.seen_at in
      ground (
        arith,
        any-weaken (filter (kept s now) w.nonces)
            (any-filter test (kept s now) (λ r e. ground arith) w.nonces h),
      )

-- A request that is accepted leaves its nonce on record, at its own time.
remember_nonce-records :
    (s : Settings) (client_id nonce : String) (now : ℕ) (w : World)
    → is_ok (remember_nonce s client_id nonce now w).0 ≡ true
    → Remembers client_id nonce now (remember_nonce s client_id nonce now w).1
unfolding remember_nonce
remember_nonce-records s client_id nonce now w h =
    let test : UsedNonce → Bool = λ r. is_nonce client_id nonce r && leb now r.seen_at in
    ground (
      arith,
      eq_refl client_id,
      eq_refl nonce,
      any-append test (filter (kept s now) w.nonces)
          (record { client_id = client_id; nonce = nonce; seen_at = now } ∷ []),
    )

All-le :
    {a b : ℕ} (rs : List Request)
    → a ≤ b
    → All (λ (r : Request). r.recorded_at ≤ a) rs
    → All (λ (r : Request). r.recorded_at ≤ b) rs
All-le [] h all = tt
All-le (r ∷ rs) h all = (omega arith, All-le rs h all.1)

module _ (sha256 : String → String) (hmac : String → String → String)
    (upper : String → String) where
  -- A stream of requests, whatever becomes of each.
  pub serve : Settings → List Request → World → World
  serve s [] w = w
  serve s (r ∷ rs) w = serve s rs (require_signed_request sha256 hmac upper s r w).1

  -- A request that passes every test but that of the nonce.
  require-signed :
      (s : Settings) (r : Request) (h : Headers) (w : World)
      → verify_session_token sha256 hmac upper s r.session r.checked_at ≡ false
      → headers r ≡ some h
      → check_headers sha256 hmac upper s r h ≡ ok tt
      → require_signed_request sha256 hmac upper s r w
        ≡ remember_nonce s h.client_id h.nonce r.recorded_at w
  unfolding require_signed_request ◌>>=◌
  require-signed s r h w no_session present passed = rw (no_session, present, passed)

  require-refused :
      (s : Settings) (r : Request) (h : Headers) (w : World) (e : Exception)
      → verify_session_token sha256 hmac upper s r.session r.checked_at ≡ false
      → headers r ≡ some h
      → check_headers sha256 hmac upper s r h ≡ err e
      → require_signed_request sha256 hmac upper s r w ≡ (err e, w)
  unfolding require_signed_request ◌>>=◌
  require-refused s r h w e no_session present failed = rw (no_session, present, failed)

  require-world :
      (s : Settings) (r : Request) (w : World)
      → ((require_signed_request sha256 hmac upper s r w).1 ≡ w)
        ⊎ ((h : Headers) × ((require_signed_request sha256 hmac upper s r w).1
              ≡ (remember_nonce s h.client_id h.nonce r.recorded_at w).1))
  unfolding require_signed_request ◌>>=◌
  require-world s r w =
      elim (Bool-cases (verify_session_token sha256 hmac upper s r.session r.checked_at)) [
        | inl session ↦ inl (rw session)
        | inr no_session ↦ elim (Option-cases (headers r)) [
          | inl missing ↦ inl (rw (no_session, missing))
          | inr (h, present) ↦ elim (Result-cases (check_headers sha256 hmac upper s r h)) [
            | inl (e, failed) ↦
                inl (ap (λ c. c.1) (require-refused s r h w e no_session present failed))
            | inr passed ↦ inr (h, ap (λ c. c.1) (require-signed s r h w no_session present passed))
          ]
        ]
      ]

  require-Remembers :
      (s : Settings) (c n : String) (since : ℕ) (r : Request) (w : World)
      → r.recorded_at ≤ since + 2 * s.signature_max_age_seconds
      → Remembers c n since w
      → Remembers c n since (require_signed_request sha256 hmac upper s r w).1
  require-Remembers s c n since r w fresh kept = elim (require-world s r w) [
    | inl e ↦ rw e kept
    | inr (h, e) ↦
        rw e (remember_nonce-Remembers s c n since h.client_id h.nonce r.recorded_at w fresh kept)
  ]

  serve-Remembers :
      (s : Settings) (c n : String) (since : ℕ) (rs : List Request) (w : World)
      → All (λ (r : Request). r.recorded_at ≤ since + 2 * s.signature_max_age_seconds) rs
      → Remembers c n since w
      → Remembers c n since (serve s rs w)
  unfolding serve
  serve-Remembers s c n since [] w fresh kept = kept
  serve-Remembers s c n since (r ∷ rs) w fresh kept =
      serve-Remembers s c n since rs (require_signed_request sha256 hmac upper s r w).1 fresh.1
        (require-Remembers s c n since r w fresh.0 kept)

  -- Two fresh uses of one timestamp lie within two windows of each other.
  fresh_window :
      (s : Settings) (ts : Bool × ℕ) (c₁ c₂ rec₁ rec₂ : ℕ)
      → stale s c₁ ts ≡ false
      → stale s c₂ ts ≡ false
      → c₁ < (rec₁ + 1) * 1000000
      → rec₂ * 1000000 ≤ c₂
      → rec₂ ≤ rec₁ + 2 * s.signature_max_age_seconds
  unfolding stale
  fresh_window s (true, n) c₁ c₂ rec₁ rec₂ f₁ f₂ before after = ground arith
  fresh_window s (false, n) c₁ c₂ rec₁ rec₂ f₁ f₂ before after = ground arith

  -- What the tests of the headers say of the timestamp.
  check_headers-fresh :
      (s : Settings) (r : Request) (h : Headers)
      → check_headers sha256 hmac upper s r h ≡ ok tt
      → (ts : Bool × ℕ) × (parse_int h.timestamp ≡ some ts) × (stale s r.checked_at ts ≡ false)
  unfolding check_headers
  check_headers-fresh s r h passed = elim (Option-cases (parse_int h.timestamp)) [
    | inl invalid ↦ absurd (ground arith)
    | inr (ts, e) ↦ (ts, e, ground arith)
  ]

-- A signed request cannot be replayed. Let a request without a console session be accepted, and let
-- any requests follow, accepted or not. A later request that carries the same four headers is then
-- rejected, provided that its nonce is stored no later than the moment at which its timestamp was
-- tested (its body did not arrive in between), that the requests in between were stored before it,
-- and that the first request's nonce was stored no earlier than the second in which it was tested.
pub replay_rejected :
    (sha256 : String → String) (hmac : String → String → String) (upper : String → String)
    (s : Settings) (r₁ r₂ : Request) (h : Headers) (rs : List Request) (w : World)
    → verify_session_token sha256 hmac upper s r₁.session r₁.checked_at ≡ false
    → verify_session_token sha256 hmac upper s r₂.session r₂.checked_at ≡ false
    → headers r₁ ≡ some h
    → headers r₂ ≡ some h
    → is_ok (require_signed_request sha256 hmac upper s r₁ w).0 ≡ true
    → All (λ (r : Request). r.recorded_at ≤ r₂.recorded_at) rs
    → r₁.checked_at < (r₁.recorded_at + 1) * 1000000
    → r₂.recorded_at * 1000000 ≤ r₂.checked_at
    → is_ok
        (require_signed_request sha256 hmac upper s r₂
          (serve sha256 hmac upper s rs (require_signed_request sha256 hmac upper s r₁ w).1)).0
      ≡ false
replay_rejected sha256 hmac upper s r₁ r₂ h rs w ns₁ ns₂ p₁ p₂ accepted between stored₁ stored₂ =
    elim (Result-cases (check_headers sha256 hmac upper s r₁ h)) [
      | inl (e, failed) ↦
          absurd
            (cc (ap (λ c. is_ok c.0) (require-refused sha256 hmac upper s r₁ h w e ns₁ p₁ failed)))
      | inr passed₁ ↦ elim (Result-cases (check_headers sha256 hmac upper s r₂ h)) [
        | inl (e, failed) ↦
            let w' =
              serve sha256 hmac upper s rs (require_signed_request sha256 hmac upper s r₁ w).1 in
            ap (λ c. is_ok c.0) (require-refused sha256 hmac upper s r₂ h w' e ns₂ p₂ failed)
        | inr passed₂ ↦
            let eq₁ = require-signed sha256 hmac upper s r₁ h w ns₁ p₁ passed₁ in
            let w₁ = (require_signed_request sha256 hmac upper s r₁ w).1 in
            let w' = serve sha256 hmac upper s rs w₁ in
            let eq₂ = require-signed sha256 hmac upper s r₂ h w' ns₂ p₂ passed₂ in
            let (ts₁, e₁, f₁) = check_headers-fresh sha256 hmac upper s r₁ h passed₁ in
            let (ts₂, e₂, f₂) = check_headers-fresh sha256 hmac upper s r₂ h passed₂ in
            let same : ts₂ ≡ ts₁ = cc (e₁, e₂) in
            let near : r₂.recorded_at ≤ r₁.recorded_at + 2 * s.signature_max_age_seconds =
              fresh_window sha256 hmac upper s ts₁ r₁.checked_at r₂.checked_at r₁.recorded_at
                r₂.recorded_at f₁ (ap (stale s r₂.checked_at) (sym same) ∙ f₂) stored₁ stored₂ in
            let noted : Remembers h.client_id h.nonce r₁.recorded_at w₁ = rw eq₁ (
              remember_nonce-records s h.client_id h.nonce r₁.recorded_at w
                (sym (ap (λ c. is_ok c.0) eq₁) ∙ accepted)) in
            let still : Remembers h.client_id h.nonce r₁.recorded_at w' =
              serve-Remembers sha256 hmac upper s h.client_id h.nonce r₁.recorded_at rs w₁
                (All-le rs near between) noted in
            rw eq₂ (
              remember_nonce-refuses s h.client_id h.nonce r₁.recorded_at r₂.recorded_at w' near
                still)
      ]
    ]
