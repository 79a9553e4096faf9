-- ===== src/Identity/Resolve/Closed.antt =====
-- Which exceptions can leave `resolve_principal`.
use mathlib.Core.Path.{subst}
use secure_gpu_inference_gat.Prelude.{
  ℕ, String, ◌≡◌, refl, ◌⊎◌, inl, inr, Option, none, some, List, Result, ok, err, arith,
}
use secure_gpu_inference_gat.Prelude.Int.{ℤ}
use secure_gpu_inference_gat.Errors.{Exception, authentication_error, overflow_error}
use secure_gpu_inference_gat.Json.{Json, Fields, str, get, broke_off}
use secure_gpu_inference_gat.Identity.{AuthSettings, ResolvedPrincipal, Codec, truthy, raise_auth}
use secure_gpu_inference_gat.Identity.Verify.{extract_bearer_token, verify_hs256_jwt}
use secure_gpu_inference_gat.Identity.Verify.Handled.{
  Escapes, IsHandled, auth-IsHandled, if-IsHandled, >>=-IsHandled, verify_hs256_jwt-IsHandled,
}
use secure_gpu_inference_gat.Identity.Resolve.{
  subject_of, principal_from_claims, or_nobody, jwt_principal, resolve_principal,
}

module _ (codec : Codec) where
  extract-IsHandled : (header : String) → IsHandled codec (extract_bearer_token header)
  unfolding extract_bearer_token raise_auth
  extract-IsHandled header =
      if-IsHandled codec _ (err (authentication_error "invalid authorization scheme")) (ok _)
        (auth-IsHandled codec "invalid authorization scheme") tt

  subject_of-IsHandled :
      (claims : Fields) (subject : Option Json)
      → get claims "sub" ≡ subject
      → IsHandled codec (subject_of claims)
  unfolding subject_of raise_auth
  subject_of-IsHandled claims (some (str s)) e =
      rw (e, subject_of)
        (if-IsHandled codec _ (err (authentication_error "missing jwt subject")) (ok s)
          (auth-IsHandled codec "missing jwt subject") tt)
  subject_of-IsHandled claims _ e = rw (e, subject_of) (auth-IsHandled codec "missing jwt subject")

  or_nobody-raised :
      (x e : Exception)
      → or_nobody (err x) ≡ err e
      → ((reason : String) × (x ≡ authentication_error reason)) ⊎ Escapes codec x
      → Escapes codec e
  unfolding or_nobody
  or_nobody-raised (authentication_error reason) e k h = cc
  or_nobody-raised x e k (inl (reason, h)) = cc
  or_nobody-raised x e k (inr h) = subst (Escapes codec) (cc k) h

  or_nobody-raises :
      (r : Result Exception ResolvedPrincipal) (e : Exception)
      → IsHandled codec r
      → or_nobody r ≡ err e
      → Escapes codec e
  unfolding or_nobody
  or_nobody-raises (ok a) e h k = cc
  or_nobody-raises (err x) e h k = or_nobody-raised x e k h

  module _ (ticks : ℕ) (settings : AuthSettings) (now : ℤ) where
    jwt_principal-IsHandled :
        (header : String) → IsHandled codec (jwt_principal codec ticks settings now header)
    unfolding jwt_principal principal_from_claims
    jwt_principal-IsHandled header =
        >>=-IsHandled codec (extract_bearer_token header) _ (extract-IsHandled header) λ token _.
          >>=-IsHandled codec (verify_hs256_jwt codec ticks settings now token) _
            (verify_hs256_jwt-IsHandled codec ticks settings now token)
            λ claims _.
              >>=-IsHandled codec (subject_of claims) _
                (subject_of-IsHandled claims (get claims "sub") refl) λ _ _. tt

    raises :
        (authorization demo : Option String) (auth name : Option String) (e : Exception)
        → truthy authorization ≡ auth
        → truthy demo ≡ name
        → resolve_principal codec ticks settings now authorization demo ≡ err e
        → Escapes codec e
    unfolding resolve_principal
    raises authorization demo (some header) name e a n h =
        or_nobody-raises (jwt_principal codec ticks settings now header) e
          (jwt_principal-IsHandled header) (rw (a, resolve_principal) at h)
    raises authorization demo none (some name) e a n h = absurd (ground arith)
    raises authorization demo none none e a n h = absurd (ground arith)

    -- An exception that leaves the resolution of a caller, whatever the two headers are, is that of a
    -- date that is too large for a float, or one that `json.loads` raised on some bytes beside the
    -- ValueError that is caught.
    pub resolve_principal-raises :
        (authorization demo : Option String) (e : Exception)
        → resolve_principal codec ticks settings now authorization demo ≡ err e
        → (e ≡ overflow_error) ⊎ ((bytes : List ℕ) × (codec.loads bytes ≡ broke_off e))
    resolve_principal-raises authorization demo e h =
        raises authorization demo (truthy authorization) (truthy demo) e refl refl h
