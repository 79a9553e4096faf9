-- ===== src/Policy/Laws.antt =====
-- What a decision means.
use secure_gpu_inference_gat.Prelude.{
  String, ◌≡◌, refl, ◌↔◌, inl, inr, Bool, true, false, not, ◌≢◌, ◌&&◌, Option, none, some, List, [],
  ◌∷◌, ◌++◌, any, contains, Any, string_eq, ◌==◌, arith, Bool-cases, if◌then◌else◌,
}
use secure_gpu_inference_gat.Text.Strip.{HasInk, strip-ink}
use secure_gpu_inference_gat.Models.{Principal, ModelPolicy}
use secure_gpu_inference_gat.Policy.{
  isdisjoint, has_reason, deny_reasons, decide, evaluate_policy, lacks_role, needs_reason,
}

abbrev In : String → List String → Type 0
In a = Any (λ x. x ≡ a)

-- Two sets of roles have one in common.
abbrev Shares : List String → List String → Type 0
Shares a b = (role : String) × In role a × In role b

-- A reason is given and is not blank.
abbrev GivesReason : Option String → Type 0
GivesReason none = ⊥
GivesReason (some reason) = HasInk reason

abbrev allow_text : String
allow_text = "policy allow"

names_differ : (lacks_role ≢ needs_reason) × (allow_text ≢ lacks_role) × (allow_text ≢ needs_reason)
names_differ = (
  ground (arith, string_eq.beq_iff lacks_role needs_reason),
  ground (arith, string_eq.beq_iff allow_text lacks_role),
  ground (arith, string_eq.beq_iff allow_text needs_reason),
)

contains_iff : (b : List String) (x : String) → (contains b x ≡ true) ↔ In x b
contains_iff [] x = (λ h. cc, λ h. absurd h)
contains_iff (y ∷ b) x = elim (Bool-cases (y == x)) [
  | inl same ↦ rw same (λ h. inl ((string_eq.beq_iff y x).0 same), λ h. refl)
  | inr other ↦ rw other (
    λ h. inr ((contains_iff b x).0 h),
    λ h. elim h [ inl e ↦ cc ((string_eq.beq_iff y x).1 e) | inr rest ↦ (contains_iff b x).1 rest ],
  )
]

any-contains_iff : (a b : List String) → (any (λ x. contains b x) a ≡ true) ↔ Shares a b
any-contains_iff [] b = (λ h. cc, λ h. absurd h.1)
any-contains_iff (x ∷ a) b = elim (Bool-cases (contains b x)) [
  | inl found ↦ rw found (λ h. (x, inl refl, (contains_iff b x).0 found), λ h. refl)
  | inr missing ↦ rw missing (
    λ h. let (r, ra, rb) = (any-contains_iff a b).0 h in (r, inr ra, rb),
    λ h. elim h.1 [
      | inl e ↦ cc ((contains_iff b x).1 (rw e h.2))
      | inr rest ↦ (any-contains_iff a b).1 (h.0, rest, h.2)
    ],
  )
]

isdisjoint_iff : (a b : List String) → (isdisjoint a b ≡ false) ↔ Shares a b
unfolding isdisjoint
isdisjoint_iff a b = elim (Bool-cases (any (λ x. contains b x) a)) [
  | inl yes_ ↦ rw yes_ (λ h. (any-contains_iff a b).0 yes_, λ h. refl)
  | inr no_ ↦ rw no_ (λ h. cc, λ h. cc ((any-contains_iff a b).1 h))
]

has_reason_iff : (reason : Option String) → (has_reason reason ≡ true) ↔ GivesReason reason
unfolding has_reason
has_reason_iff none = (λ h. cc, λ h. absurd h)
has_reason_iff (some r) = (λ h. (strip-ink r).0 (ground arith), λ h. rw ((strip-ink r).1 h))

-- What must hold for a request to be allowed.
pub record Permits (p : Principal) (m : ModelPolicy) (reason : Option String) : Type 0 where
  pub role : Shares p.roles m.allowed_roles
  pub stated : m.requires_reason ≡ true → GivesReason reason

abbrev pub Allows : Option Principal → Option ModelPolicy → Option String → Type 0
Allows none m reason = ⊥
Allows (some p) none reason = ⊥
Allows (some p) (some m) reason = Permits p m reason

-- A request is allowed exactly when the principal and the model are known, they share a role,
-- and a reason that is not blank is given where the model requires one.
pub evaluate_policy-allowed_iff :
    (p : Option Principal) (m : Option ModelPolicy) (reason : Option String)
    → ((evaluate_policy p m reason).allowed ≡ true) ↔ Allows p m reason
unfolding evaluate_policy decide deny_reasons
evaluate_policy-allowed_iff none m reason = (λ h. cc, λ h. absurd h)
evaluate_policy-allowed_iff (some p) none reason = (λ h. cc, λ h. absurd h)
evaluate_policy-allowed_iff (some p) (some m) reason =
    ground (arith, isdisjoint_iff p.roles m.allowed_roles, has_reason_iff reason)

disjoint_iff : (a b : List String) → (isdisjoint a b ≡ true) ↔ (¬ Shares a b)
disjoint_iff a b = elim (Bool-cases (isdisjoint a b)) [
  | inl apart ↦ (λ h s. cc (apart, (isdisjoint_iff a b).1 s), λ h. apart)
  | inr meet ↦ (λ h. cc, λ h. absurd (h ((isdisjoint_iff a b).0 meet)))
]

missing_iff :
    (m : ModelPolicy) (reason : Option String)
    → ((m.requires_reason && not (has_reason reason)) ≡ true)
      ↔ ((m.requires_reason ≡ true) × (¬ GivesReason reason))
missing_iff m reason = elim (Bool-cases (has_reason reason)) [
  | inl given ↦ (λ h. ground (arith, given), λ h. absurd (h.1 ((has_reason_iff reason).0 given)))
  | inr missing ↦ (
    λ h. (ground (arith, missing), λ g. cc (missing, (has_reason_iff reason).1 g)),
    λ h. ground (arith, missing),
  )
]

flags_named :
    (d n : Bool)
    → (In lacks_role
          (decide
            ((if d then lacks_role ∷ [] else []) ++ (if n then needs_reason ∷ [] else []))).reasons
        ↔ (d ≡ true))
      × (In needs_reason
            (decide (
              (if d then lacks_role ∷ [] else []) ++ (if n then needs_reason ∷ [] else []))).reasons
          ↔ (n ≡ true))
unfolding decide
flags_named true true = ground (arith, names_differ)
flags_named true false = ground (arith, names_differ)
flags_named false true = ground (arith, names_differ)
flags_named false false = ground (arith, names_differ)

-- For a known principal and model, a refusal names the role exactly when no role is shared, and
-- the reason exactly when one is required and none, or a blank one, is given.
evaluate_policy-reasons :
    (p : Principal) (m : ModelPolicy) (reason : Option String)
    → (In lacks_role (evaluate_policy (some p) (some m) reason).reasons
        ↔ (¬ Shares p.roles m.allowed_roles))
      × (In needs_reason (evaluate_policy (some p) (some m) reason).reasons
          ↔ ((m.requires_reason ≡ true) × (¬ GivesReason reason)))
unfolding evaluate_policy decide deny_reasons
evaluate_policy-reasons p m reason =
    let named =
      flags_named (isdisjoint p.roles m.allowed_roles)
        (m.requires_reason && not (has_reason reason)) in
    (
      (
        λ h. (disjoint_iff p.roles m.allowed_roles).0 (named.0.0 h),
        λ h. named.0.1 ((disjoint_iff p.roles m.allowed_roles).1 h),
      ),
      (λ h. (missing_iff m reason).0 (named.1.0 h), λ h. named.1.1 ((missing_iff m reason).1 h)),
    )
