-- ===== src/Identity/Verify/Handled.antt =====
-- Which exceptions can leave the verification of a token.
use Prim.Native.Char.{code}
use Prim.Native.String.{◌++◌}
use secure_gpu_inference_gat.Text.{len}
use secure_gpu_inference_gat.Text.Split.{split}
use text.Mathlib.TextLemmas.{nil-append, cons-append}
use secure_gpu_inference_gat.Prelude.{
  ℕ, ◌<◌, String, ◌≡◌, refl, ◌↔◌, ◌⊎◌, inl, inr, Bool, true, false, not, Option, none, some, List,
  [], ◌∷◌, Result, ok, err, ◌>>=◌, ◌>>◌, raise_if, >>=-eq-ok, arith, if◌then◌else◌,
}
use secure_gpu_inference_gat.Prelude.Int.{ℤ, pos, scale}
use secure_gpu_inference_gat.Errors.{Exception, authentication_error, overflow_error}
use secure_gpu_inference_gat.Json.{
  Float, finite, Json, null, bool, int, float, str, arr, obj, Fields, get, Loaded, invalid,
  broke_off,
}
use secure_gpu_inference_gat.Identity.{
  AuthSettings, Codec, truthy, is_text, raise_auth, to_float, numeric_date, check_audience,
  check_expiry, check_start, validate_claims,
}
use secure_gpu_inference_gat.Identity.Verify.{
  encode_ascii, base64url_decode, decode_json, same_bytes, only_object, or_malformed, after_loads,
  encoded, padding, verify_parts, verify_split, verify_hs256_jwt,
}

abbrev IsAscii : String → Type 0
IsAscii String.[] = Unit
IsAscii (String.◌∷◌ c s) = (code c < 128) × IsAscii s

encode_ascii-IsAscii : (s : String) (bytes : List ℕ) → encode_ascii s ≡ ok bytes → IsAscii s
unfolding encode_ascii
encode_ascii-IsAscii String.[] bytes h = tt
encode_ascii-IsAscii (String.◌∷◌ c s) bytes h =
    let (rest, e, k) = >>=-eq-ok (encode_ascii s) _ h in
    (ground arith, encode_ascii-IsAscii s rest e)

IsAscii-encode_ascii : (s : String) → IsAscii s → (bytes : List ℕ) × (encode_ascii s ≡ ok bytes)
unfolding encode_ascii
IsAscii-encode_ascii String.[] h = ([], refl)
IsAscii-encode_ascii (String.◌∷◌ c s) h =
    let (bytes, e) = IsAscii-encode_ascii s h.1 in (code c ∷ bytes, ground arith)

IsAscii-append : (s t : String) → IsAscii (s ++ t) ↔ (IsAscii s × IsAscii t)
IsAscii-append String.[] t = rw nil-append (λ h. (tt, h), λ h. h.1)
IsAscii-append (String.◌∷◌ c s) t = rw cons-append (
  λ h. let (a, b) = (IsAscii-append s t).0 h.1 in ((h.0, a), b),
  λ h. (h.0.0, (IsAscii-append s t).1 (h.0.1, h.1)),
)

-- The exceptions that nobody handles: that of a date too large for a float, and those of `json.loads`
-- other than a ValueError.
abbrev pub Escapes : Codec → Exception → Type 0
Escapes codec e = (e ≡ overflow_error) ⊎ ((bytes : List ℕ) × (codec.loads bytes ≡ broke_off e))

-- A value, an AuthenticationError, which the caller handles, or an exception that nobody handles.
abbrev pub IsHandled : {A : Type 0} → Codec → Result Exception A → Type 0
IsHandled codec (ok a) = Unit
IsHandled codec (err e) = ((reason : String) × (e ≡ authentication_error reason)) ⊎ Escapes codec e

module _ (codec : Codec) where
  pub >>=-IsHandled :
      {A B : Type 0} (m : Result Exception A) (f : A → Result Exception B)
      → IsHandled codec m
      → ((a : A) → m ≡ ok a → IsHandled codec (f a))
      → IsHandled codec (m >>= f)
  >>=-IsHandled (ok a) f hm hf = hf a refl
  >>=-IsHandled (err e) f hm hf = hm

  pub auth-IsHandled :
      (reason : String)
      → ((r : String) × (authentication_error reason ≡ authentication_error r))
        ⊎ Escapes codec (authentication_error reason)
  auth-IsHandled reason = inl (reason, refl)

  encode_ascii-IsHandled : (s : String) → IsAscii s → IsHandled codec (encode_ascii s)
  encode_ascii-IsHandled s h = let (bytes, e) = IsAscii-encode_ascii s h in rw e tt

  raise_if-IsHandled :
      (test : Bool) (reason : String)
      → IsHandled codec (raise_if test (authentication_error reason))
  raise_if-IsHandled true reason = auth-IsHandled reason
  raise_if-IsHandled false reason = tt

  or_malformed-IsHandled : {A : Type 0} (o : Option A) → IsHandled codec (or_malformed o)
  unfolding or_malformed raise_auth
  or_malformed-IsHandled none = auth-IsHandled "malformed jwt"
  or_malformed-IsHandled (some a) = tt

  pub if-IsHandled :
      {A : Type 0} (test : Bool) (m n : Result Exception A)
      → IsHandled codec m
      → IsHandled codec n
      → IsHandled codec (if test then m else n)
  if-IsHandled true m n hm hn = hm
  if-IsHandled false m n hm hn = hn

  encoded-ok :
      (r : Result Exception (List ℕ)) (bytes : List ℕ)
      → or_malformed (encoded r) ≡ ok bytes
      → r ≡ ok bytes
  unfolding or_malformed raise_auth
  encoded-ok (ok a) bytes h = h
  encoded-ok (err e) bytes h = cc

  to_float-IsHandled : (ticks : ℕ) (n : ℤ) → IsHandled codec (to_float ticks n)
  unfolding to_float
  to_float-IsHandled ticks n =
      if-IsHandled _ (err overflow_error) (ok (finite (scale ticks n))) (inr (inl refl)) tt

  only_object-IsHandled : (j : Json) → IsHandled codec (only_object codec j)
  unfolding only_object raise_auth
  only_object-IsHandled (obj o) = tt
  only_object-IsHandled _ = auth-IsHandled "malformed jwt"

  after_loads-IsHandled :
      (bytes : List ℕ) (l : Loaded) → codec.loads bytes ≡ l → IsHandled codec (after_loads l)
  unfolding after_loads raise_auth
  after_loads-IsHandled bytes (Loaded.value json) h = tt
  after_loads-IsHandled bytes invalid h = auth-IsHandled "malformed jwt"
  after_loads-IsHandled bytes (broke_off e) h = inr (inr (bytes, h))

  base64url_decode-IsHandled : (value : String) → IsHandled codec (base64url_decode codec value)
  unfolding base64url_decode
  base64url_decode-IsHandled value =
      >>=-IsHandled (or_malformed _) _ (or_malformed-IsHandled _)
        (λ bytes _. or_malformed-IsHandled (codec.urlsafe_b64decode bytes))

  decode_json-IsHandled : (segment : String) → IsHandled codec (decode_json codec segment)
  unfolding decode_json
  decode_json-IsHandled segment =
      >>=-IsHandled (base64url_decode codec segment) _ (base64url_decode-IsHandled segment)
        (λ bytes _.
          >>=-IsHandled (after_loads (codec.loads bytes)) _
            (after_loads-IsHandled bytes (codec.loads bytes) refl)
            (λ value _. only_object-IsHandled value))

  -- A segment that was decoded is ASCII.
  decode_json-IsAscii :
      (segment : String) (fields : Fields) → decode_json codec segment ≡ ok fields → IsAscii segment
  unfolding decode_json base64url_decode
  decode_json-IsAscii segment fields h =
      let (decoded, is_decoded, k) = >>=-eq-ok (base64url_decode codec segment) _ h in
      let padded = segment ++ padding (len segment) in
      let (bytes, is_bytes, k) =
        >>=-eq-ok (or_malformed (encoded (encode_ascii padded))) _ is_decoded in
      ((IsAscii-append segment (padding (len segment))).0
        (encode_ascii-IsAscii padded bytes (encoded-ok (encode_ascii padded) bytes is_bytes))).0

  module _ (ticks : ℕ) (settings : AuthSettings) (now : ℤ) where
    numeric_date-IsHandled :
        (j : Json) (claim_name : String) → IsHandled codec (numeric_date ticks j claim_name)
    unfolding numeric_date raise_auth
    numeric_date-IsHandled (int n) claim_name = to_float-IsHandled ticks n
    numeric_date-IsHandled (bool true) claim_name = to_float-IsHandled ticks (pos 1)
    numeric_date-IsHandled (bool false) claim_name = to_float-IsHandled ticks (pos 0)
    numeric_date-IsHandled (float f) claim_name = tt
    numeric_date-IsHandled null claim_name = auth-IsHandled _
    numeric_date-IsHandled (str s) claim_name = auth-IsHandled _
    numeric_date-IsHandled (arr a) claim_name = auth-IsHandled _
    numeric_date-IsHandled (obj o) claim_name = auth-IsHandled _

    then-IsHandled :
        (m n : Result Exception Unit)
        → IsHandled codec m
        → IsHandled codec n
        → IsHandled codec (m >> n)
    then-IsHandled m n hm hn = >>=-IsHandled m (λ _. n) hm (λ _ _. hn)

    dated-IsHandled :
        (exp : Json) (claim_name : String) (f : Float → Result Exception Unit)
        → ((d : Float) → IsHandled codec (f d))
        → IsHandled codec (numeric_date ticks exp claim_name >>= f)
    dated-IsHandled exp claim_name f h =
        >>=-IsHandled (numeric_date ticks exp claim_name) f (numeric_date-IsHandled exp claim_name)
          (λ d _. h d)

    check_expiry-IsHandled :
        (claims : Fields) (exp : Option Json)
        → get claims "exp" ≡ exp
        → IsHandled codec (check_expiry ticks settings now claims)
    unfolding check_expiry raise_auth
    check_expiry-IsHandled claims none e = rw (e, check_expiry) (auth-IsHandled _)
    check_expiry-IsHandled claims (some null) e = rw (e, check_expiry) (auth-IsHandled _)
    check_expiry-IsHandled claims (some exp) e =
        rw (e, check_expiry)
          (dated-IsHandled exp "exp" _ (λ d.
            then-IsHandled (raise_if _ _) (raise_if _ _) (raise_if-IsHandled _ _)
              (raise_if-IsHandled _ _)))

    check_start-IsHandled :
        (claims : Fields) (claim_name reason : String) (date : Option Json)
        → get claims claim_name ≡ date
        → IsHandled codec (check_start ticks settings now claims claim_name reason)
    unfolding check_start
    check_start-IsHandled claims claim_name reason none e = rw (e, check_start) tt
    check_start-IsHandled claims claim_name reason (some null) e = rw (e, check_start) tt
    check_start-IsHandled claims claim_name reason (some date) e =
        rw (e, check_start) (dated-IsHandled date claim_name _ (λ d. raise_if-IsHandled _ _))

    check_audience-IsHandled :
        (claims : Fields) (issuer audience : Option String)
        → truthy settings.jwt_issuer ≡ issuer
        → truthy settings.jwt_audience ≡ audience
        → IsHandled codec (check_audience ticks settings now claims)
    unfolding check_audience
    check_audience-IsHandled claims none none e f = rw (e, f, check_audience) tt
    check_audience-IsHandled claims none (some a) e f =
        rw (e, f, check_audience) (raise_if-IsHandled _ _)
    check_audience-IsHandled claims (some i) none e f =
        rw (e, f, check_audience)
          (then-IsHandled (raise_if _ _) (ok tt) (raise_if-IsHandled _ _) tt)
    check_audience-IsHandled claims (some i) (some a) e f =
        rw (e, f, check_audience)
          (then-IsHandled (raise_if _ _) (raise_if _ _) (raise_if-IsHandled _ _)
            (raise_if-IsHandled _ _))

    validate_claims-IsHandled :
        (claims : Fields) → IsHandled codec (validate_claims ticks settings now claims)
    unfolding validate_claims
    validate_claims-IsHandled claims =
        then-IsHandled (check_audience ticks settings now claims) _
          (check_audience-IsHandled claims (truthy settings.jwt_issuer)
            (truthy settings.jwt_audience) refl refl)
          (then-IsHandled (check_expiry ticks settings now claims) _
            (check_expiry-IsHandled claims (get claims "exp") refl)
            (then-IsHandled (check_start ticks settings now claims "nbf" "token not yet valid") _
              (check_start-IsHandled claims "nbf" "token not yet valid" (get claims "nbf") refl)
              (check_start-IsHandled claims "iat" "token issued in the future" (get claims "iat")
                refl)))

    -- The text that is signed is made of segments that were decoded before.
    signing_input-IsAscii :
        (head body : String) (h b : Fields)
        → decode_json codec head ≡ ok h
        → decode_json codec body ≡ ok b
        → IsAscii (head ++ "." ++ body)
    signing_input-IsAscii head body h b eh eb = (IsAscii-append head ("." ++ body)).1 (
      decode_json-IsAscii head h eh,
      (IsAscii-append "." body).1 ((omega arith, tt), decode_json-IsAscii body b eb),
    )

    verify_parts-IsHandled :
        (secret head body tail : String)
        → IsHandled codec (verify_parts codec ticks settings now secret head body tail)
    unfolding verify_parts
    verify_parts-IsHandled secret head body tail =
        >>=-IsHandled (decode_json codec head) _ (decode_json-IsHandled head) λ header eh.
          >>=-IsHandled (decode_json codec body) _ (decode_json-IsHandled body) λ payload eb.
            let unsigned = not (is_text (get header "alg") "HS256") in
            >>=-IsHandled (raise_if unsigned (authentication_error "unsupported jwt algorithm")) _
              (raise_if-IsHandled unsigned "unsupported jwt algorithm")
              λ _ _.
                >>=-IsHandled (encode_ascii (head ++ "." ++ body)) _
                  (encode_ascii-IsHandled (head ++ "." ++ body)
                    (signing_input-IsAscii head body header payload eh eb))
                  λ message _.
                    >>=-IsHandled (base64url_decode codec tail) _ (base64url_decode-IsHandled tail)
                      λ actual _.
                        let mac = codec.hmac_sha256 (codec.encode_utf8 secret) message in
                        let forged = not (same_bytes mac actual) in
                        >>=-IsHandled
                          (raise_if forged (authentication_error "invalid jwt signature")) _
                          (raise_if-IsHandled forged "invalid jwt signature")
                          λ _ _.
                            >>=-IsHandled (validate_claims ticks settings now payload) _
                              (validate_claims-IsHandled payload) λ _ _. tt

    verify_split-IsHandled :
        (secret : String) (parts : List String)
        → IsHandled codec (verify_split codec ticks settings now secret parts)
    unfolding verify_split raise_auth
    verify_split-IsHandled secret (a ∷ b ∷ c ∷ []) = verify_parts-IsHandled secret a b c
    verify_split-IsHandled secret _ = auth-IsHandled _

    verify-IsHandled :
        (secret? : Option String) (token : String)
        → truthy settings.jwt_hs256_secret ≡ secret?
        → IsHandled codec (verify_hs256_jwt codec ticks settings now token)
    unfolding verify_hs256_jwt raise_auth
    verify-IsHandled none token e = rw (e, verify_hs256_jwt) (auth-IsHandled _)
    verify-IsHandled (some secret) token e =
        rw (e, verify_hs256_jwt) (verify_split-IsHandled secret (split b'.' token))

    pub verify_hs256_jwt-IsHandled :
        (token : String) → IsHandled codec (verify_hs256_jwt codec ticks settings now token)
    verify_hs256_jwt-IsHandled token =
        verify-IsHandled (truthy settings.jwt_hs256_secret) token refl
