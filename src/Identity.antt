-- ===== src/Identity.antt =====
-- gateway/identity.py: who the caller is.
pub mod Claims
pub mod Verify
pub mod Resolve
use Prim.Native.Char.{code}
use Prim.Native.Nat.{◌^◌}
use Prim.Native.String.{◌++◌}
use secure_gpu_inference_gat.Prelude.{
  ℕ, ◌+◌, ◌*◌, ◌-◌, String, Bool, true, false, not, ◌&&◌, ◌||◌, Option, none, some, List, [], ◌∷◌,
  length, contains, ltb, leb, nat_beq, ◌==◌, string_eq, Result, ok, err, ◌>>=◌, ◌>>◌, raise_if,
  if◌then◌else◌,
}
use mathlib.Core.List
use secure_gpu_inference_gat.Prelude.Int.{ℤ, pos, negsuc, ◌+ℤ◌, ◌-ℤ◌, pos_part, neg_part, scale}
use secure_gpu_inference_gat.Errors.{
  Exception, authentication_error, unicode_encode_error, overflow_error,
}
use secure_gpu_inference_gat.Text.{is_empty, strip}
use secure_gpu_inference_gat.Text.Case.{lower, chr}
use secure_gpu_inference_gat.Text.Split.{split, partition, replace, words}
use secure_gpu_inference_gat.Json.{
  Float, finite, nan, infinity, minus_infinity, add, sub, is_below, is_above, Json, null, bool, int,
  float, str, arr, obj, Items, nil, cons, Fields, get, items, Loaded,
}
use secure_gpu_inference_gat.Models.{Principal}
use secure_gpu_inference_gat.Dict
use secure_gpu_inference_gat.Dict.{Dict}

pub record AuthSettings : Type 0 where
  pub jwt_issuer : Option String
  pub jwt_audience : Option String
  pub jwt_hs256_secret : Option String
  pub roles_claim : String
  pub scopes_claim : String
  pub allow_demo_principals : Bool
  pub clock_skew_seconds : ℤ
  pub max_token_lifetime_seconds : ℤ

pub record ResolvedPrincipal : Type 0 where
  pub principal : Option Principal
  pub auth_method : String
  pub issuer : Option String
  pub subject : Option String
  pub failure_reason : Option String

-- A text that is not empty, as Python's `if text:` takes it.
abbrev pub truthy : Option String → Option String
truthy none = none
truthy (some s) = if is_empty s then none else some s

raise_auth : {A : Type 0} → String → Result Exception A
raise_auth reason = err (authentication_error reason)

-- What the code takes from Python's standard library: base64, JSON, HMAC-SHA256. A byte string is a
-- list of numbers.
pub record Codec : Type 0 where
  -- `base64.urlsafe_b64decode`, none for the ValueError that it raises.
  pub urlsafe_b64decode : List ℕ → Option (List ℕ)
  -- `.decode("utf-8")` and `json.loads`, which end with a value, a ValueError, or another exception.
  pub loads : List ℕ → Loaded
  -- `text.encode("utf-8")`
  pub encode_utf8 : String → List ℕ
  -- `hmac.new(key, message, sha256).digest()`
  pub hmac_sha256 : List ℕ → List ℕ → List ℕ

-- `part for part in value.replace(",", " ").split() if part`
words_of : String → List String
words_of value = words (replace b',' (chr b' ') value)

-- The texts of a list that are not empty.
text_items : List Json → List String
text_items [] = []
text_items (str s ∷ js) = let rest = text_items js in if is_empty s then rest else s ∷ rest
text_items (_ ∷ js) = text_items js

unfoldable pub claim_values : Option Json → List String
unfolding words_of text_items
claim_values (some (str value)) = words_of value
claim_values (some (arr value)) = text_items (items value)
claim_values _ = []

unfoldable pub first_string : List (Option Json) → String
first_string [] = "unknown"
first_string (some (str s) ∷ values) = if is_empty s then first_string values else s
first_string (_ ∷ values) = first_string values

-- `claims.get("iss") == text`
unfoldable pub is_text : Option Json → String → Bool
is_text (some (str s)) text = s == text
is_text _ text = false

-- From here a time is a whole number of ticks, of which `ticks` make a second.
module _ (ticks : ℕ) where
  -- `float(value)` of an int, which raises from 2^1024 - 2^970 on.
  unfoldable pub to_float : ℤ → Result Exception Float
  to_float n =
      if leb (2 ^ 1024 - 2 ^ 970) (pos_part n + neg_part n)
      then err overflow_error
      else ok (finite (scale ticks n))

  -- A bool is an int.
  unfoldable pub numeric_date : Json → String → Result Exception Float
  unfolding raise_auth
  numeric_date (int n) claim_name = to_float n
  numeric_date (bool true) claim_name = to_float (pos 1)
  numeric_date (bool false) claim_name = to_float (pos 0)
  numeric_date (float f) claim_name = ok f
  numeric_date _ claim_name = raise_auth ("invalid " ++ claim_name ++ " claim")

  module _ (settings : AuthSettings) (now : ℤ) where
    open settings use {clock_skew_seconds, max_token_lifetime_seconds}

    abbrev skew : ℤ
    skew = scale ticks clock_skew_seconds

    -- `iss` and `aud`
    unfoldable pub check_audience : Fields → Result Exception Unit
    unfolding claim_values is_text
    check_audience claims = do
      elim (truthy settings.jwt_issuer) [
        | none ↦ ok tt
        | some issuer ↦
            raise_if (not (is_text (get claims "iss") issuer))
              (authentication_error "unexpected issuer")
      ]
      elim (truthy settings.jwt_audience) [
        | none ↦ ok tt
        | some audience ↦
            raise_if (not (contains (claim_values (get claims "aud")) audience))
              (authentication_error "unexpected audience")
      ]

    -- `exp`, which every token must have.
    unfoldable pub check_expiry : Fields → Result Exception Unit
    unfolding raise_auth
    check_expiry claims = elim (get claims "exp") [
      | none ↦ raise_auth "missing expiry"
      | some null ↦ raise_auth "missing expiry"
      | some exp ↦ do
        expires_at ← numeric_date exp "exp"
        raise_if (is_below (add expires_at skew) now) (authentication_error "token expired")
        raise_if
            (is_above (sub expires_at now)
              (scale ticks (max_token_lifetime_seconds +ℤ clock_skew_seconds)))
            (authentication_error "token lifetime too long")
    ]

    -- `nbf` and `iat`, which a token may leave out.
    unfoldable pub check_start : Fields → String → String → Result Exception Unit
    check_start claims claim_name reason = elim (get claims claim_name) [
      | none ↦ ok tt
      | some null ↦ ok tt
      | some date ↦ do
        starts_at ← numeric_date date claim_name
        raise_if (is_above (sub starts_at skew) now) (authentication_error reason)
    ]

    -- `_validate_claims`
    unfoldable pub validate_claims : Fields → Result Exception Unit
    validate_claims claims = do
      check_audience claims
      check_expiry claims
      check_start claims "nbf" "token not yet valid"
      check_start claims "iat" "token issued in the future"
