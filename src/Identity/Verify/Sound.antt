-- ===== src/Identity/Verify/Sound.antt =====
-- What a verified token has shown.
use Prim.Native.String.{◌++◌}
use secure_gpu_inference_gat.Prelude.{
  ℕ, String, ◌≡◌, refl, true, not, Option, none, some, List, [], ◌∷◌, nat_eq, ok, >>=-eq-ok,
  raise_if, arith,
}
use secure_gpu_inference_gat.Prelude.Int.{ℤ}
use secure_gpu_inference_gat.Text.Split.{split}
use secure_gpu_inference_gat.Json.{Fields, get}
use secure_gpu_inference_gat.Identity.{AuthSettings, Codec, truthy, is_text, validate_claims}
use secure_gpu_inference_gat.Identity.Verify.{
  encode_ascii, base64url_decode, decode_json, same_bytes, verify_parts, verify_split,
  verify_hs256_jwt,
}

same_bytes-eq : (a b : List ℕ) → same_bytes a b ≡ true → a ≡ b
unfolding same_bytes
same_bytes-eq [] [] h = refl
same_bytes-eq [] (y ∷ ys) h = cc
same_bytes-eq (x ∷ xs) [] h = cc
same_bytes-eq (x ∷ xs) (y ∷ ys) h = ground (arith, same_bytes-eq xs ys)

-- The token's third part is the MAC of the first two under the secret.
pub record IsSigned (codec : Codec) (secret head body tail : String) : Type 0 where
  pub message : List ℕ
  pub is_message : encode_ascii (head ++ "." ++ body) ≡ ok message
  pub is_mac :
      base64url_decode codec tail ≡ ok (codec.hmac_sha256 (codec.encode_utf8 secret) message)

module _ (codec : Codec) (ticks : ℕ) (settings : AuthSettings) (now : ℤ) where
  -- How the claims of a token come from it.
  pub record Verified (token : String) (claims : Fields) : Type 0 where
    pub secret : String
    pub head : String
    pub body : String
    pub tail : String
    pub configured : truthy settings.jwt_hs256_secret ≡ some secret
    pub is_split : split b'.' token ≡ head ∷ body ∷ tail ∷ []
    pub header : Fields
    pub is_header : decode_json codec head ≡ ok header
    pub is_hs256 : is_text (get header "alg") "HS256" ≡ true
    pub is_payload : decode_json codec body ≡ ok claims
    pub signed : IsSigned codec secret head body tail
    pub valid : validate_claims ticks settings now claims ≡ ok tt

  verify_parts_sound :
      (secret head body tail : String) (claims : Fields)
      → verify_parts codec ticks settings now secret head body tail ≡ ok claims
      → (header : Fields) × (decode_json codec head ≡ ok header)
        × (is_text (get header "alg") "HS256" ≡ true)
        × (decode_json codec body ≡ ok claims)
        × IsSigned codec secret head body tail
        × (validate_claims ticks settings now claims ≡ ok tt)
  unfolding verify_parts
  verify_parts_sound secret head body tail claims h =
      let (header, is_header, k) = >>=-eq-ok (decode_json codec head) _ h in
      let (payload, is_payload, k) = >>=-eq-ok (decode_json codec body) _ k in
      let (u, is_hs256, k) =
        >>=-eq-ok (raise_if (not (is_text (get header "alg") "HS256")) _) _ k in
      let (message, is_message, k) = >>=-eq-ok (encode_ascii (head ++ "." ++ body)) _ k in
      let (actual, is_actual, k) = >>=-eq-ok (base64url_decode codec tail) _ k in
      let (u, is_same, k) =
        >>=-eq-ok
          (raise_if (not (same_bytes (codec.hmac_sha256 (codec.encode_utf8 secret) message) actual))
            _)
          _ k in
      let (u, is_valid, k) = >>=-eq-ok (validate_claims ticks settings now payload) _ k in
      let mac = codec.hmac_sha256 (codec.encode_utf8 secret) message in
      let e : payload ≡ claims = cc k in
      let m : mac ≡ actual = same_bytes-eq mac actual (ground (arith, is_same)) in
      (
        header,
        is_header,
        ground (arith, is_hs256),
        rw (← e) is_payload,
        record { message = message; is_message = is_message; is_mac = rw m is_actual },
        rw (← e) is_valid,
      )

  verify_split-three :
      (secret : String) (parts : List String) (claims : Fields)
      → verify_split codec ticks settings now secret parts ≡ ok claims
      → (head : String) × (body : String) × (tail : String) × (parts ≡ head ∷ body ∷ tail ∷ [])
        × (verify_parts codec ticks settings now secret head body tail ≡ ok claims)
  unfolding verify_split
  verify_split-three secret [] claims h = cc
  verify_split-three secret (a ∷ []) claims h = cc
  verify_split-three secret (a ∷ b ∷ []) claims h = cc
  verify_split-three secret (a ∷ b ∷ c ∷ []) claims h = (a, b, c, refl, h)
  verify_split-three secret (a ∷ b ∷ c ∷ d ∷ parts) claims h = cc

  verify_configured :
      (secret? : Option String) (token : String) (claims : Fields)
      → truthy settings.jwt_hs256_secret ≡ secret?
      → verify_hs256_jwt codec ticks settings now token ≡ ok claims
      → (secret : String) × (secret? ≡ some secret)
        × (verify_split codec ticks settings now secret (split b'.' token) ≡ ok claims)
  unfolding verify_hs256_jwt
  verify_configured none token claims e h = cc (rw (e, verify_hs256_jwt) at h)
  verify_configured (some secret) token claims e h = (secret, refl, rw (e, verify_hs256_jwt) at h)

  -- A token that is accepted has three parts, an HS256 header, the MAC of its first two parts
  -- under the secret of the settings, and claims that are valid.
  pub verify_hs256_jwt_sound :
      (token : String) (claims : Fields)
      → verify_hs256_jwt codec ticks settings now token ≡ ok claims
      → Verified token claims
  verify_hs256_jwt_sound token claims h =
      let (secret, e, k) =
        verify_configured (truthy settings.jwt_hs256_secret) token claims refl h in
      let (head, body, tail, parts, k) = verify_split-three secret (split b'.' token) claims k in
      let (header, is_header, is_hs256, is_payload, signed, valid) =
        verify_parts_sound secret head body tail claims k in
      record {
        secret = secret;
        head = head;
        body = body;
        tail = tail;
        configured = e;
        is_split = parts;
        header = header;
        is_header = is_header;
        is_hs256 = is_hs256;
        is_payload = is_payload;
        signed = signed;
        valid = valid;
      }
