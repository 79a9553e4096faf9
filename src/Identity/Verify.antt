-- ===== src/Identity/Verify.antt =====
-- gateway/identity.py: the token, and the way from the headers of a request to its caller.
pub mod Sound
pub mod Handled
use Prim.Native.Char.{code}
use Prim.Native.String
use Prim.Native.String.{◌++◌}
use secure_gpu_inference_gat.Prelude.{
  ℕ, zero, suc, String, Bool, true, false, not, ◌||◌, ◌&&◌, Option, none, some, List, [], ◌∷◌,
  nat_beq, ltb, ◌==◌, string_eq, Result, ok, err, ◌>>=◌, ◌>>◌, raise_if, if◌then◌else◌,
}
use secure_gpu_inference_gat.Prelude.Int.{ℤ}
use secure_gpu_inference_gat.Errors.{Exception, authentication_error, unicode_encode_error}
use secure_gpu_inference_gat.Text.{len, is_empty, strip}
use secure_gpu_inference_gat.Text.Case.{lower}
use secure_gpu_inference_gat.Text.Split.{split, partition}
use secure_gpu_inference_gat.Json.{Json, Fields, obj, str, get, Loaded, invalid, broke_off}
use secure_gpu_inference_gat.Models.{Principal}
use secure_gpu_inference_gat.Registry.{principals}
use secure_gpu_inference_gat.Dict
use secure_gpu_inference_gat.Identity.{
  AuthSettings, ResolvedPrincipal, Codec, truthy, raise_auth, claim_values, first_string, is_text,
  validate_claims,
}
use mathlib.Core.List

unfoldable pub extract_bearer_token : String → Result Exception String
unfolding raise_auth
extract_bearer_token authorization_header =
    let (scheme, token) = partition b' ' (strip authorization_header) in
    if not (lower scheme == "bearer") || is_empty (strip token)
    then raise_auth "invalid authorization scheme"
    else ok (strip token)

-- `text.encode("ascii")`
unfoldable pub encode_ascii : String → Result Exception (List ℕ)
encode_ascii String.[] = ok []
encode_ascii (String.◌∷◌ c s) = do
  rest ← encode_ascii s
  if ltb (code c) 128 then ok (code c ∷ rest) else err unicode_encode_error

-- `"=" * (-len(value) % 4)`
padding : ℕ → String
padding zero = ""
padding (suc zero) = "==="
padding (suc (suc zero)) = "=="
padding (suc (suc (suc zero))) = "="
padding (suc (suc (suc (suc n)))) = padding n

-- `except (ValueError, UnicodeEncodeError)`
or_malformed : {A : Type 0} → Option A → Result Exception A
unfolding raise_auth
or_malformed none = raise_auth "malformed jwt"
or_malformed (some a) = ok a

-- A ValueError is caught; another exception, such as the RecursionError of a value that is nested
-- too deeply, goes on.
after_loads : Loaded → Result Exception Json
unfolding raise_auth
after_loads (Loaded.value json) = ok json
after_loads invalid = raise_auth "malformed jwt"
after_loads (broke_off e) = err e

abbrev encoded : Result Exception (List ℕ) → Option (List ℕ)
encoded (ok bytes) = some bytes
encoded (err e) = none

-- `hmac.compare_digest`
unfoldable pub same_bytes : List ℕ → List ℕ → Bool
same_bytes [] [] = true
same_bytes (x ∷ xs) (y ∷ ys) = nat_beq x y && same_bytes xs ys
same_bytes _ _ = false

module _ (codec : Codec) where
  open codec use {urlsafe_b64decode, loads, encode_utf8, hmac_sha256}

  unfoldable pub base64url_decode : String → Result Exception (List ℕ)
  unfolding or_malformed padding
  base64url_decode value = do
    bytes ← or_malformed (encoded (encode_ascii (value ++ padding (len value))))
    or_malformed (urlsafe_b64decode bytes)

  only_object : Json → Result Exception Fields
  unfolding raise_auth
  only_object (obj fields) = ok fields
  only_object _ = raise_auth "malformed jwt"

  unfoldable pub decode_json : String → Result Exception Fields
  unfolding only_object after_loads
  decode_json segment = do
    bytes ← base64url_decode segment
    json ← after_loads (loads bytes)
    only_object json

  module _ (ticks : ℕ) (settings : AuthSettings) (now : ℤ) where
    -- The three parts of a token, with the secret of the settings.
    unfoldable pub verify_parts : String → String → String → String → Result Exception Fields
    unfolding same_bytes
    verify_parts secret head body tail = do
      header ← decode_json head
      payload ← decode_json body
      raise_if (not (is_text (get header "alg") "HS256"))
          (authentication_error "unsupported jwt algorithm")
      signing_input ← encode_ascii (head ++ "." ++ body)
      actual ← base64url_decode tail
      raise_if (not (same_bytes (hmac_sha256 (encode_utf8 secret) signing_input) actual))
          (authentication_error "invalid jwt signature")
      validate_claims ticks settings now payload
      ok payload

    verify_split : String → List String → Result Exception Fields
    unfolding raise_auth
    verify_split secret (head ∷ body ∷ tail ∷ []) = verify_parts secret head body tail
    verify_split secret _ = raise_auth "malformed jwt"

    unfoldable pub verify_hs256_jwt : String → Result Exception Fields
    unfolding verify_split raise_auth
    verify_hs256_jwt token = elim (truthy settings.jwt_hs256_secret) [
      | none ↦ raise_auth "jwt verifier not configured"
      | some secret ↦ verify_split secret (split b'.' token)
    ]
