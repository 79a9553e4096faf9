-- ===== src/Settings/Closed.antt =====
-- gateway/identity.py: a service that is started without credentials lets nobody in.
use secure_gpu_inference_gat.Prelude.{
  ◌≡◌, sym, ap, ◌∙◌, ℕ, String, true, false, Option, none, some, Option-cases, inl, inr, ok,
  >>=-eq-ok,
}
use secure_gpu_inference_gat.Prelude.Int.{ℤ}
use secure_gpu_inference_gat.Models.{Principal}
use secure_gpu_inference_gat.Identity.{AuthSettings, ResolvedPrincipal, Codec, truthy}
use secure_gpu_inference_gat.Identity.Resolve.{resolve_principal}
use secure_gpu_inference_gat.Identity.Resolve.Sound.{Authentic, resolve_principal-Authentic}
use secure_gpu_inference_gat.Settings.{Environment, getenv_or, empty_to_none, parse_bool, from_env}

from_env-credentials :
    (env : Environment) (settings : AuthSettings)
    → from_env env ≡ ok settings
    → (settings.jwt_hs256_secret ≡ empty_to_none (env.getenv "OIDC_JWT_HS256_SECRET"))
      × (settings.allow_demo_principals ≡ parse_bool (env.getenv "ALLOW_DEMO_PRINCIPALS") false)
unfolding from_env
from_env-credentials env settings h =
    let (skew, _, rest) =
      >>=-eq-ok (env.parse_int (getenv_or env "OIDC_CLOCK_SKEW_SECONDS" "60")) _ h in
    let (lifetime, _, last) =
      >>=-eq-ok (env.parse_int (getenv_or env "OIDC_MAX_TOKEN_LIFETIME_SECONDS" "86400")) _ rest in
    (cc, cc)

module _ (codec : Codec) (ticks : ℕ) (settings : AuthSettings) (now : ℤ) where
  nobody-Authentic :
      (header demo : Option String) (p : Principal)
      → settings.jwt_hs256_secret ≡ none
      → settings.allow_demo_principals ≡ false
      → Authentic codec ticks settings now header demo p
      → ⊥
  nobody-Authentic (some header) demo p secret demos from =
      let clash : truthy none ≡ some from.verified.secret =
        sym (ap truthy secret) ∙ from.verified.configured in
      cc
  nobody-Authentic none (some demo) p secret demos from =
      let clash : false ≡ true = sym demos ∙ from.allowed in cc
  nobody-Authentic none none p secret demos from = from

  -- In an environment without a secret for tokens, and where ALLOW_DEMO_PRINCIPALS is not one of the
  -- words that switch the demo principals on, no request is resolved to a principal, whatever its
  -- headers are.
  pub resolve_principal-from_env :
      (env : Environment) (authorization demo : Option String) (resolved : ResolvedPrincipal)
      → empty_to_none (env.getenv "OIDC_JWT_HS256_SECRET") ≡ none
      → parse_bool (env.getenv "ALLOW_DEMO_PRINCIPALS") false ≡ false
      → from_env env ≡ ok settings
      → resolve_principal codec ticks settings now authorization demo ≡ ok resolved
      → resolved.principal ≡ none
  resolve_principal-from_env env authorization demo resolved secret demos started h =
      let (at_secret, at_demos) = from_env-credentials env settings started in
      elim (Option-cases resolved.principal) [
        | inl nobody ↦ nobody
        | inr (p, found) ↦ absurd (
            nobody-Authentic (truthy authorization) (truthy demo) p (at_secret ∙ secret)
              (at_demos ∙ demos)
              (resolve_principal-Authentic codec ticks settings now authorization demo resolved p h
                found))
      ]
