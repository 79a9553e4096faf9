-- ===== src/Identity/Resolve/Sound.antt =====
-- Whom a resolved principal stands for.
use secure_gpu_inference_gat.Prelude.{
  ℕ, String, ◌≡◌, refl, true, Option, none, some, Result, ok, >>=-eq-ok, string_eq, arith,
}
use secure_gpu_inference_gat.Prelude.Int.{ℤ}
use secure_gpu_inference_gat.Errors.{Exception}
use secure_gpu_inference_gat.Json.{Json, Fields, str, get}
use secure_gpu_inference_gat.Models.{Principal}
use secure_gpu_inference_gat.Registry.{principals}
use secure_gpu_inference_gat.Dict
use secure_gpu_inference_gat.Identity.{AuthSettings, ResolvedPrincipal, Codec, truthy}
use secure_gpu_inference_gat.Identity.Verify.{extract_bearer_token, verify_hs256_jwt}
use secure_gpu_inference_gat.Identity.Verify.Sound.{Verified, verify_hs256_jwt_sound}
use secure_gpu_inference_gat.Identity.Resolve.{
  subject_of, principal_from_claims, or_nobody, demo_principal, jwt_principal, resolve_principal,
}

module _ (codec : Codec) (ticks : ℕ) (settings : AuthSettings) (now : ℤ) where
  -- The principal of a bearer token that was verified; its name is the subject of the claims.
  pub record FromToken (header : String) (p : Principal) : Type 0 where
    pub token : String
    pub claims : Fields
    pub is_bearer : extract_bearer_token header ≡ ok token
    pub verified : Verified codec ticks settings now token claims
    pub is_subject : get claims "sub" ≡ some (str p.principal_id)

  -- A demo principal of the registry, named by a header, where the settings allow that.
  pub record FromDemo (demo : String) (p : Principal) : Type 0 where
    pub allowed : settings.allow_demo_principals ≡ true
    pub registered : Dict.get principals demo ≡ some p

  -- A token, if there is an authorization header, and else a demo principal.
  abbrev pub Authentic : Option String → Option String → Principal → Type 0
  Authentic (some header) demo p = FromToken header p
  Authentic none (some demo) p = FromDemo demo p
  Authentic none none p = ⊥

  subject_of-str :
      (claims : Fields) (sub : Option Json) (subject : String)
      → get claims "sub" ≡ sub
      → subject_of claims ≡ ok subject
      → sub ≡ some (str subject)
  unfolding subject_of
  subject_of-str claims sub subject e h = ground arith

  principal_from_claims-subject :
      (claims : Fields) (resolved : ResolvedPrincipal) (p : Principal)
      → principal_from_claims claims settings ≡ ok resolved
      → resolved.principal ≡ some p
      → subject_of claims ≡ ok p.principal_id
  unfolding principal_from_claims
  principal_from_claims-subject claims resolved p h e = ground arith

  or_nobody-ok :
      (r : Result Exception ResolvedPrincipal) (resolved : ResolvedPrincipal) (p : Principal)
      → or_nobody r ≡ ok resolved
      → resolved.principal ≡ some p
      → r ≡ ok resolved
  unfolding or_nobody
  or_nobody-ok r resolved p h e = ground arith

  jwt_principal_sound :
      (header : String) (resolved : ResolvedPrincipal) (p : Principal)
      → jwt_principal codec ticks settings now header ≡ ok resolved
      → resolved.principal ≡ some p
      → FromToken header p
  unfolding jwt_principal
  jwt_principal_sound header resolved p h e =
      let (token, is_bearer, k) = >>=-eq-ok (extract_bearer_token header) _ h in
      let (claims, is_verified, k) =
        >>=-eq-ok (verify_hs256_jwt codec ticks settings now token) _ k in
      record {
        token = token;
        claims = claims;
        is_bearer = is_bearer;
        verified = verify_hs256_jwt_sound codec ticks settings now token claims is_verified;
        is_subject =
            subject_of-str claims (get claims "sub") p.principal_id refl
              (principal_from_claims-subject claims resolved p k e);
      }

  demo_principal_sound :
      (demo : String) (p : Principal)
      → (demo_principal settings demo).principal ≡ some p
      → FromDemo demo p
  unfolding demo_principal
  demo_principal_sound demo p h = record { allowed = ground arith; registered = ground arith }

  resolve-Authentic :
      (authorization demo : Option String) (auth name : Option String)
      → truthy authorization ≡ auth
      → truthy demo ≡ name
      → (resolved : ResolvedPrincipal) (p : Principal)
      → resolve_principal codec ticks settings now authorization demo ≡ ok resolved
      → resolved.principal ≡ some p
      → Authentic auth name p
  unfolding resolve_principal
  resolve-Authentic authorization demo (some header) name a n resolved p h e =
      jwt_principal_sound header resolved p
        (or_nobody-ok _ resolved p (rw (a, resolve_principal) at h) e) e
  resolve-Authentic authorization demo none (some name) a n resolved p h e =
      demo_principal_sound name p (ground arith)
  resolve-Authentic authorization demo none none a n resolved p h e = ground arith

  -- Whoever is resolved to a principal has sent a bearer token that was verified, and is its
  -- subject, or has sent no authorization header and named a demo principal where that is allowed.
  pub resolve_principal-Authentic :
      (authorization demo : Option String) (resolved : ResolvedPrincipal) (p : Principal)
      → resolve_principal codec ticks settings now authorization demo ≡ ok resolved
      → resolved.principal ≡ some p
      → Authentic (truthy authorization) (truthy demo) p
  resolve_principal-Authentic authorization demo =
      resolve-Authentic authorization demo (truthy authorization) (truthy demo) refl refl
