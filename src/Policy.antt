-- ===== src/Policy.antt =====
-- gateway/policy.py: who may call which model.
pub mod Laws
use secure_gpu_inference_gat.Prelude.{
  String, ◌≡◌, Bool, true, false, not, ◌&&◌, Option, none, some, List, [], ◌∷◌, ◌++◌, any, contains,
  string_eq, if◌then◌else◌,
}
use secure_gpu_inference_gat.Text.{is_empty, strip}
use secure_gpu_inference_gat.Models.{Principal, ModelPolicy, PolicyDecision}

-- `a.isdisjoint(b)`
unfoldable pub isdisjoint : List String → List String → Bool
isdisjoint a b = not (any (λ x. contains b x) a)

-- `reason and reason.strip()`
unfoldable pub has_reason : Option String → Bool
has_reason none = false
has_reason (some reason) = not (is_empty (strip reason))

abbrev pub lacks_role : String
lacks_role = "principal lacks an allowed role for this model"

abbrev pub needs_reason : String
needs_reason = "reason is required for this model"

deny_reasons : Principal → ModelPolicy → Option String → List String
unfolding isdisjoint has_reason
deny_reasons principal model_policy reason =
    (if isdisjoint principal.roles model_policy.allowed_roles then lacks_role ∷ [] else [])
    ++ (if model_policy.requires_reason && not (has_reason reason) then needs_reason ∷ [] else [])

decide : List String → PolicyDecision
decide [] = record { allowed = true; reasons = "policy allow" ∷ [] }
decide (r ∷ reasons) = record { allowed = false; reasons = r ∷ reasons }

unfoldable pub evaluate_policy :
    Option Principal → Option ModelPolicy → Option String → PolicyDecision
unfolding decide deny_reasons
evaluate_policy none model_policy reason = record {
  allowed = false;
  reasons = "unknown principal" ∷ [];
}
evaluate_policy (some principal) none reason = record {
  allowed = false;
  reasons = "unknown model" ∷ [];
}
evaluate_policy (some principal) (some model_policy) reason =
    decide (deny_reasons principal model_policy reason)
