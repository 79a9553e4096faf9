-- ===== src/Backend/Url.antt =====
-- gateway/backend_adapter.py, `completion_url`: a URL that it has made is left as it is.
use Prim.Native.Char.{Char, code}
use Prim.Native.String.{◌++◌}
use mathlib.Core.Path.{subst}
use secure_gpu_inference_gat.Prelude.{
  ◌≡◌, refl, sym, ap, ◌∙◌, String, Bool, true, false, not, ◌&&◌, ◌||◌, ◌==◌, string_eq, nat_beq,
  ◌⊎◌, inl, inr, arith, Bool-cases, Result, ok, err, if◌then◌else◌,
}
use secure_gpu_inference_gat.Errors.{Exception, backend_adapter_error}
use secure_gpu_inference_gat.Text.{is_empty, is_space, lstrip, rstrip, strip}
use secure_gpu_inference_gat.Text.Affix.{prepend, append_eq, ends_with, rstrip_slash}
use secure_gpu_inference_gat.Backend.{completion_url}

-- The text has a first character, which is not blank.
begins_inked : String → Bool
begins_inked String.[] = false
begins_inked (String.◌∷◌ c s) = not (is_space (code c))

-- The last character of the text is no blank and no slash.
ends_inked : String → Bool
ends_inked String.[] = false
ends_inked (String.◌∷◌ c String.[]) = not (is_space (code c)) && not (nat_beq (code c) 47)
ends_inked (String.◌∷◌ c (String.◌∷◌ d s)) = ends_inked (String.◌∷◌ d s)

lstrip-begins_inked : (s : String) → (lstrip s ≡ "") ⊎ (begins_inked (lstrip s) ≡ true)
unfolding lstrip begins_inked
lstrip-begins_inked String.[] = inl refl
lstrip-begins_inked (String.◌∷◌ c s) = ground (arith, lstrip-begins_inked s)

rstrip-begins_inked :
    (s : String) → is_empty (rstrip s) ≡ false → begins_inked (rstrip s) ≡ begins_inked s
unfolding rstrip begins_inked
rstrip-begins_inked String.[] h = refl
rstrip-begins_inked (String.◌∷◌ c s) h = ground arith

rstrip_slash-begins_inked :
    (s : String)
    → is_empty (rstrip_slash s) ≡ false
    → begins_inked (rstrip_slash s) ≡ begins_inked s
unfolding rstrip_slash begins_inked
rstrip_slash-begins_inked String.[] h = refl
rstrip_slash-begins_inked (String.◌∷◌ c s) h = ground arith

lstrip-inked : (s : String) → begins_inked s ≡ true → lstrip s ≡ s
unfolding lstrip begins_inked
lstrip-inked String.[] h = refl
lstrip-inked (String.◌∷◌ c s) h = ground arith

rstrip-inked : (s : String) → ends_inked s ≡ true → rstrip s ≡ s
unfolding rstrip ends_inked
rstrip-inked String.[] h = refl
rstrip-inked (String.◌∷◌ c String.[]) h = ground arith
rstrip-inked (String.◌∷◌ c (String.◌∷◌ d s)) h = rw (rstrip-inked (String.◌∷◌ d s) h) (ground arith)

rstrip_slash-inked : (s : String) → ends_inked s ≡ true → rstrip_slash s ≡ s
unfolding rstrip_slash ends_inked
rstrip_slash-inked String.[] h = refl
rstrip_slash-inked (String.◌∷◌ c String.[]) h = ground arith
rstrip_slash-inked (String.◌∷◌ c (String.◌∷◌ d s)) h =
    ground (arith, rstrip_slash-inked (String.◌∷◌ d s))

abbrev completions : String
completions = "/completions"

ends_inked-cons : (c : Char) (s : String) → ends_inked s ≡ true → ends_inked (String.◌∷◌ c s) ≡ true
unfolding ends_inked
ends_inked-cons c String.[] h = cc
ends_inked-cons c (String.◌∷◌ d s) h = h

ends_with-completions : (u : String) → ends_with u completions ≡ true → ends_inked u ≡ true
unfolding ends_with ends_inked is_space
ends_with-completions String.[] h = cc
ends_with-completions (String.◌∷◌ c s) h = elim (Bool-cases (String.◌∷◌ c s == completions)) [
  | inl whole ↦ ap ends_inked ((string_eq.beq_iff (String.◌∷◌ c s) completions).0 whole)
  | inr other ↦
      ends_inked-cons c s
        (ends_with-completions s (ap (λ b. b || ends_with s completions) (sym other) ∙ h))
]

ends_with-prepend :
    (n t : String) → ends_with t completions ≡ true → ends_with (prepend n t) completions ≡ true
unfolding ends_with
ends_with-prepend String.[] t h = h
ends_with-prepend (String.◌∷◌ c n) t h = ground (arith, ends_with-prepend n t h)

begins_inked-prepend : (n t : String) → begins_inked n ≡ true → begins_inked (prepend n t) ≡ true
unfolding begins_inked
begins_inked-prepend String.[] t h = cc
begins_inked-prepend (String.◌∷◌ c n) t h = h

normal : String → String
normal endpoint = rstrip_slash (strip endpoint)

not_emptied : (s : String) → is_empty (rstrip_slash s) ≡ false → is_empty s ≡ false
unfolding rstrip_slash
not_emptied String.[] h = h
not_emptied (String.◌∷◌ c s) h = refl

normal-begins_inked :
    (endpoint : String) → is_empty (normal endpoint) ≡ false → begins_inked (normal endpoint) ≡ true
unfolding normal strip
normal-begins_inked endpoint h =
    let back = rstrip_slash-begins_inked (rstrip (lstrip endpoint)) h in
    let kept : is_empty (rstrip (lstrip endpoint)) ≡ false = not_emptied _ h in
    elim (lstrip-begins_inked endpoint) [
      | inl blank ↦ cc
      | inr first ↦ back ∙ rstrip-begins_inked (lstrip endpoint) kept ∙ first
    ]

IsUrl : String → Type 0
IsUrl u = (begins_inked u ≡ true) × (ends_with u completions ≡ true)

IsUrl-prepend :
    (n t : String) → begins_inked n ≡ true → ends_with t completions ≡ true → IsUrl (n ++ t)
unfolding IsUrl
IsUrl-prepend n t first last =
    rw (append_eq n t) (begins_inked-prepend n t first, ends_with-prepend n t last)

-- The three ways in which a URL is made, by the tests of `completion_url`.
made : Bool → Bool → Bool → String → Result Exception String
made blank whole base n =
    if blank
    then err (backend_adapter_error "backend endpoint must not be empty")
    else if whole
    then ok n
    else if base
    then ok (n ++ completions)
    else ok (n ++ "/v1/completions")

made-IsUrl :
    (blank whole base : Bool) (n u : String)
    → made blank whole base n ≡ ok u
    → (blank ≡ false → begins_inked n ≡ true)
    → (whole ≡ true → ends_with n completions ≡ true)
    → IsUrl u
unfolding made IsUrl ends_with
made-IsUrl true whole base n u h first last = cc
made-IsUrl false true base n u h first last =
    let same : n ≡ u = cc in rw (sym same) (first refl, last refl)
made-IsUrl false false true n u h first last =
    let same : n ++ completions ≡ u = cc in
    subst IsUrl same (IsUrl-prepend n completions (first refl) refl)
made-IsUrl false false false n u h first last =
    let same : n ++ "/v1/completions" ≡ u = cc in
    subst IsUrl same (IsUrl-prepend n "/v1/completions" (first refl) refl)

completion_url-IsUrl : (endpoint u : String) → completion_url endpoint ≡ ok u → IsUrl u
unfolding completion_url normal made
completion_url-IsUrl endpoint u h =
    let n = normal endpoint in
    made-IsUrl (is_empty n) (ends_with n completions) (ends_with n "/v1") n u h
      (normal-begins_inked endpoint) (λ last. last)

not_blank : (u : String) → begins_inked u ≡ true → is_empty u ≡ false
unfolding begins_inked
not_blank String.[] h = cc
not_blank (String.◌∷◌ c u) h = refl

completion_url-url : (u : String) → IsUrl u → completion_url u ≡ ok u
unfolding completion_url strip IsUrl
completion_url-url u (first, last) =
    let inked = ends_with-completions u last in
    let same : rstrip_slash (rstrip (lstrip u)) ≡ u =
      ap (λ t. rstrip_slash (rstrip t)) (lstrip-inked u first)
      ∙ ap rstrip_slash (rstrip-inked u inked)
      ∙ rstrip_slash-inked u inked in
    rw (same, not_blank u first, last) refl

-- The URL that is made for an endpoint ends with `/completions`, and it is left as it is when it
-- is given as an endpoint: no path is added twice.
pub completion_url_idem :
    (endpoint u : String)
    → completion_url endpoint ≡ ok u
    → (ends_with u "/completions" ≡ true) × (completion_url u ≡ ok u)
unfolding IsUrl
completion_url_idem endpoint u h =
    let is_url = completion_url-IsUrl endpoint u h in (is_url.1, completion_url-url u is_url)
