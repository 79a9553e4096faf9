-- ===== src/Identity/Claims.antt =====
-- What valid claims are.
use secure_gpu_inference_gat.Prelude.{
  ℕ, String, ◌≡◌, refl, ◌↔◌, true, Option, none, some, contains, string_eq, Result, ok, err, ◌>>=◌,
  ◌>>◌, raise_if, arith,
}
use secure_gpu_inference_gat.Prelude.Int.{ℤ, ◌+ℤ◌, ◌-ℤ◌, ◌≤ℤ◌, scale}
use secure_gpu_inference_gat.Errors.{Exception, authentication_error}
use secure_gpu_inference_gat.Json.{
  Float, finite, nan, infinity, minus_infinity, Json, null, bool, int, float, str, arr, obj, Fields,
  get, add, sub, is_below, is_above,
}
use secure_gpu_inference_gat.Identity.{
  AuthSettings, raise_auth, truthy, claim_values, is_text, numeric_date, skew, check_audience,
  check_expiry, check_start, validate_claims,
}

-- A result that is no exception, with a property of its value.
abbrev pub Gives : {A : Type 0} → (A → Type 0) → Result Exception A → Type 0
Gives P (ok a) = P a
Gives P (err e) = ⊥

-- Where a value is expected, the claim is the expected one.
abbrev pub IsExpected : (String → Type 0) → Option String → Type 0
IsExpected P none = Unit
IsExpected P (some expected) = P expected

module _ (ticks : ℕ) (settings : AuthSettings) (now : ℤ) where
  -- Not past by more than the skew, and not further off than the longest lifetime and the skew.
  abbrev pub IsAlive : Float → Type 0
  IsAlive (finite e) =
      (now ≤ℤ e +ℤ scale ticks settings.clock_skew_seconds)
      × (e -ℤ now
          ≤ℤ scale ticks (settings.max_token_lifetime_seconds +ℤ settings.clock_skew_seconds))
  IsAlive nan = Unit
  IsAlive infinity = ⊥
  IsAlive minus_infinity = ⊥

  abbrev pub HasBegun : Float → Type 0
  HasBegun (finite b) = b -ℤ scale ticks settings.clock_skew_seconds ≤ℤ now
  HasBegun nan = Unit
  HasBegun infinity = ⊥
  HasBegun minus_infinity = Unit

  -- `exp` is there, it is a number, and it is alive.
  abbrev pub Expires : Option Json → Type 0
  Expires none = ⊥
  Expires (some null) = ⊥
  Expires (some exp) = Gives IsAlive (numeric_date ticks exp "exp")

  -- `nbf` or `iat` is left out, or it is a number that has begun.
  abbrev pub Begins : String → Option Json → Type 0
  Begins claim_name none = Unit
  Begins claim_name (some null) = Unit
  Begins claim_name (some date) = Gives HasBegun (numeric_date ticks date claim_name)

  pub record Valid (claims : Fields) : Type 0 where
    pub issuer :
        IsExpected (λ issuer. is_text (get claims "iss") issuer ≡ true) (truthy settings.jwt_issuer)
    pub audience :
        IsExpected
          (λ audience. contains (claim_values (get claims "aud")) audience ≡ true)
          (truthy settings.jwt_audience)
    pub expiry : Expires (get claims "exp")
    pub not_before : Begins "nbf" (get claims "nbf")
    pub issued_at : Begins "iat" (get claims "iat")

  lifetime_iff :
      (r : Result Exception Float)
      → ((do
        expires_at ← r
        raise_if
            (is_below (add expires_at (skew ticks settings now)) now)
            (authentication_error "token expired")
        raise_if
            (is_above
              (sub expires_at now)
              (scale ticks (settings.max_token_lifetime_seconds +ℤ settings.clock_skew_seconds)))
            (authentication_error "token lifetime too long"))
          ≡ ok tt)
        ↔ Gives IsAlive r
  lifetime_iff (ok (finite e)) = ground arith
  lifetime_iff (ok nan) = ground arith
  lifetime_iff (ok infinity) = ground arith
  lifetime_iff (ok minus_infinity) = ground arith
  lifetime_iff (err e) = ground arith

  begun_iff :
      (r : Result Exception Float) (reason : String)
      → ((do
        starts_at ← r
        raise_if
            (is_above (sub starts_at (skew ticks settings now)) now)
            (authentication_error reason))
          ≡ ok tt)
        ↔ Gives HasBegun r
  begun_iff (ok (finite e)) reason = ground arith
  begun_iff (ok nan) reason = ground arith
  begun_iff (ok infinity) reason = ground arith
  begun_iff (ok minus_infinity) reason = ground arith
  begun_iff (err e) reason = ground arith

  expiry_iff :
      (claims : Fields) (exp : Option Json)
      → get claims "exp" ≡ exp
      → (check_expiry ticks settings now claims ≡ ok tt) ↔ Expires exp
  unfolding check_expiry raise_auth
  expiry_iff claims none e = rw (e, check_expiry) (ground arith)
  expiry_iff claims (some null) e = rw (e, check_expiry) (ground arith)
  expiry_iff claims (some (bool b)) e = rw (e, check_expiry) (lifetime_iff _)
  expiry_iff claims (some (int n)) e = rw (e, check_expiry) (lifetime_iff _)
  expiry_iff claims (some (float f)) e = rw (e, check_expiry) (lifetime_iff _)
  expiry_iff claims (some (str s)) e = rw (e, check_expiry) (lifetime_iff _)
  expiry_iff claims (some (arr a)) e = rw (e, check_expiry) (lifetime_iff _)
  expiry_iff claims (some (obj o)) e = rw (e, check_expiry) (lifetime_iff _)

  start_iff :
      (claims : Fields) (claim_name reason : String) (date : Option Json)
      → get claims claim_name ≡ date
      → (check_start ticks settings now claims claim_name reason ≡ ok tt) ↔ Begins claim_name date
  unfolding check_start
  start_iff claims claim_name reason none e = rw (e, check_start) (ground arith)
  start_iff claims claim_name reason (some null) e = rw (e, check_start) (ground arith)
  start_iff claims claim_name reason (some (bool b)) e = rw (e, check_start) (begun_iff _ reason)
  start_iff claims claim_name reason (some (int n)) e = rw (e, check_start) (begun_iff _ reason)
  start_iff claims claim_name reason (some (float f)) e = rw (e, check_start) (begun_iff _ reason)
  start_iff claims claim_name reason (some (str s)) e = rw (e, check_start) (begun_iff _ reason)
  start_iff claims claim_name reason (some (arr a)) e = rw (e, check_start) (begun_iff _ reason)
  start_iff claims claim_name reason (some (obj o)) e = rw (e, check_start) (begun_iff _ reason)

  audience_iff :
      (claims : Fields) (issuer audience : Option String)
      → truthy settings.jwt_issuer ≡ issuer
      → truthy settings.jwt_audience ≡ audience
      → (check_audience ticks settings now claims ≡ ok tt) ↔ (
          IsExpected (λ issuer. is_text (get claims "iss") issuer ≡ true) issuer
          × IsExpected
              (λ audience. contains (claim_values (get claims "aud")) audience ≡ true)
              audience)
  unfolding check_audience
  audience_iff claims none none e f = rw (e, f, check_audience) (ground arith)
  audience_iff claims none (some a) e f = rw (e, f, check_audience) (ground arith)
  audience_iff claims (some i) none e f = rw (e, f, check_audience) (ground arith)
  audience_iff claims (some i) (some a) e f = rw (e, f, check_audience) (ground arith)

  -- Claims pass exactly when the issuer and the audience are the expected ones, where the settings
  -- name them, the expiry is there and alive, and the two dates that a token may have have begun.
  pub validate_claims_iff :
      (claims : Fields) → (validate_claims ticks settings now claims ≡ ok tt) ↔ Valid claims
  unfolding validate_claims
  validate_claims_iff claims = ground (
    arith,
    audience_iff claims (truthy settings.jwt_issuer) (truthy settings.jwt_audience) refl refl,
    expiry_iff claims (get claims "exp") refl,
    start_iff claims "nbf" "token not yet valid" (get claims "nbf") refl,
    start_iff claims "iat" "token issued in the future" (get claims "iat") refl,
  )
