-- ===== src/Telemetry/Public.antt =====
-- gateway/telemetry_snapshot.py, `assert_no_sensitive_data`: which snapshots pass.
use secure_gpu_inference_gat.Prelude.{
  ◌≡◌, refl, ap, ◌↔◌, String, Bool, true, false, ◌||◌, ◌==◌, string_eq, Option, none, some, List,
  [], ◌∷◌, ◌++◌, All, Result, ok, err, ◌>>◌, if◌then◌else◌,
}
use secure_gpu_inference_gat.Errors.{Exception}
use secure_gpu_inference_gat.Text.Case.{lower}
use secure_gpu_inference_gat.Json.{
  Json, null, bool, int, float, str, arr, obj, Items, nil, cons, Fields, end, field,
}
use secure_gpu_inference_gat.Telemetry.{
  has_part, forbidden_terms, forbidden_in, refuse_field, refuse_value, walk, walk_items,
  walk_fields,
}

-- The texts of a value that its readers see: all keys, and the texts that are not in the
-- exclusions.
unfoldable mutual
  unfolding lower

  pub published : Bool → Json → List String
  published excluded (obj fields) = published_fields excluded fields
  published excluded (arr items) = published_items excluded items
  published true (str text) = []
  published false (str text) = text ∷ []
  published excluded _ = []

  pub published_items : Bool → Items → List String
  published_items excluded nil = []
  published_items excluded (cons child more) =
      published excluded child ++ published_items excluded more

  pub published_fields : Bool → Fields → List String
  published_fields excluded end = []
  published_fields excluded (field key child more) =
      key
      ∷ (published (excluded || lower key == "exclusions") child ++ published_fields excluded more)

-- No forbidden term is in the text, in whatever case.
abbrev pub IsClean : String → Type 0
IsClean text = All (λ term. has_part (lower text) term ≡ false) forbidden_terms

if-none :
    (b : Bool) (term : String) (rest : Option String)
    → (if b then some term else rest) ≡ none
    → (b ≡ false) × (rest ≡ none)
if-none true term rest h = cc
if-none false term rest h = (refl, h)

forbidden_in-none :
    (text : String) (terms : List String)
    → forbidden_in text terms ≡ none
    → All (λ term. has_part (lower text) term ≡ false) terms
unfolding forbidden_in
forbidden_in-none text [] h = tt
forbidden_in-none text (term ∷ terms) h =
    let (free, later) = if-none (has_part (lower text) term) term (forbidden_in text terms) h in
    (free, forbidden_in-none text terms later)

none-forbidden_in :
    (text : String) (terms : List String)
    → All (λ term. has_part (lower text) term ≡ false) terms
    → forbidden_in text terms ≡ none
unfolding forbidden_in
none-forbidden_in text [] h = refl
none-forbidden_in text (term ∷ terms) (first, h) = rw (first, none-forbidden_in text terms h) refl

module _ {A : Type 0} (P : A → Type 0) where
  All-append : (xs ys : List A) → All P xs → All P ys → All P (xs ++ ys)
  All-append [] ys left right = right
  All-append (x ∷ xs) ys (first, left) right = (first, All-append xs ys left right)

  All-split : (xs ys : List A) → All P (xs ++ ys) → All P xs × All P ys
  All-split [] ys all = (tt, all)
  All-split (x ∷ xs) ys (first, all) =
      let (left, right) = All-split xs ys all in ((first, left), right)

refuse_value-ok : (found : Option String) → refuse_value found ≡ ok tt → found ≡ none
refuse_value-ok none h = refl
refuse_value-ok (some term) h = cc

refuse_field-ok :
    (key : String) (found : Option String) → refuse_field key found ≡ ok tt → found ≡ none
refuse_field-ok key none h = refl
refuse_field-ok key (some term) h = cc

>>-eq-ok :
    (first rest : Result Exception Unit)
    → (first >> rest) ≡ ok tt
    → (first ≡ ok tt) × (rest ≡ ok tt)
>>-eq-ok (err e) rest h = cc
>>-eq-ok (ok tt) rest h = (refl, h)

mutual
  unfolding walk walk_items walk_fields published published_items published_fields

  walk-All :
      (excluded : Bool) (j : Json) → walk excluded j ≡ ok tt → All IsClean (published excluded j)
  walk-All excluded null h = tt
  walk-All excluded (bool b) h = tt
  walk-All excluded (int n) h = tt
  walk-All excluded (float x) h = tt
  walk-All true (str text) h = tt
  walk-All false (str text) h = (forbidden_in-none text forbidden_terms (refuse_value-ok _ h), tt)
  walk-All excluded (arr items) h = walk_items-All excluded items h
  walk-All excluded (obj fields) h = walk_fields-All excluded fields h

  walk_items-All :
      (excluded : Bool) (items : Items)
      → walk_items excluded items ≡ ok tt
      → All IsClean (published_items excluded items)
  walk_items-All excluded nil h = tt
  walk_items-All excluded (cons child more) h =
      let (first, rest) = >>-eq-ok (walk excluded child) (walk_items excluded more) h in
      All-append IsClean (published excluded child) (published_items excluded more)
        (walk-All excluded child first) (walk_items-All excluded more rest)

  walk_fields-All :
      (excluded : Bool) (fields : Fields)
      → walk_fields excluded fields ≡ ok tt
      → All IsClean (published_fields excluded fields)
  walk_fields-All excluded end h = tt
  walk_fields-All excluded (field key child more) h =
      let inside : Bool = excluded || lower key == "exclusions" in
      let (named, behind) =
        >>-eq-ok (refuse_field key (forbidden_in key forbidden_terms))
          (walk inside child >> walk_fields excluded more) h in
      let (first, rest) = >>-eq-ok (walk inside child) (walk_fields excluded more) behind in
      (
        forbidden_in-none key forbidden_terms (refuse_field-ok key _ named),
        All-append IsClean (published inside child) (published_fields excluded more)
            (walk-All inside child first) (walk_fields-All excluded more rest),
      )

mutual
  unfolding walk walk_items walk_fields published published_items published_fields

  All-walk :
      (excluded : Bool) (j : Json) → All IsClean (published excluded j) → walk excluded j ≡ ok tt
  All-walk excluded null h = refl
  All-walk excluded (bool b) h = refl
  All-walk excluded (int n) h = refl
  All-walk excluded (float x) h = refl
  All-walk true (str text) h = refl
  All-walk false (str text) (clean, _) =
      ap refuse_value (none-forbidden_in text forbidden_terms clean)
  All-walk excluded (arr items) h = All-walk_items excluded items h
  All-walk excluded (obj fields) h = All-walk_fields excluded fields h

  All-walk_items :
      (excluded : Bool) (items : Items)
      → All IsClean (published_items excluded items)
      → walk_items excluded items ≡ ok tt
  All-walk_items excluded nil h = refl
  All-walk_items excluded (cons child more) h =
      let (first, rest) =
        All-split IsClean (published excluded child) (published_items excluded more) h in
      rw (All-walk excluded child first) (All-walk_items excluded more rest)

  All-walk_fields :
      (excluded : Bool) (fields : Fields)
      → All IsClean (published_fields excluded fields)
      → walk_fields excluded fields ≡ ok tt
  All-walk_fields excluded end h = refl
  All-walk_fields excluded (field key child more) (clean, h) =
      let inside : Bool = excluded || lower key == "exclusions" in
      let (first, rest) =
        All-split IsClean (published inside child) (published_fields excluded more) h in
      rw (none-forbidden_in key forbidden_terms clean, All-walk inside child first)
        (All-walk_fields excluded more rest)

pub walk_iff :
    (excluded : Bool) (j : Json) → (walk excluded j ≡ ok tt) ↔ All IsClean (published excluded j)
walk_iff excluded j = (walk-All excluded j, All-walk excluded j)
