-- ===== src/Sorting/Ranks.antt =====
-- What `sorted` keeps, and where the elements of a sorted list of numbers stand.
use secure_gpu_inference_gat.Prelude.{
  ◌≡◌, refl, sym, ap, ◌∙◌, ℕ, zero, suc, ◌+◌, ◌≤◌, ◌<◌, Bool, true, false, some, List, [], ◌∷◌,
  length, All, leb, ltb, arith, Bool-cases, inl, inr, if◌then◌else◌,
}
use secure_gpu_inference_gat.Sorting.{place, sorted, get_elem?}

module _ {A : Type 0} where
  -- The number of elements that pass a test.
  unfoldable pub count_if : (A → Bool) → List A → ℕ
  count_if p [] = 0
  count_if p (a ∷ as_) = (if p a then 1 else 0) + count_if p as_

  count_if-place :
      (p : A → Bool) (le : A → A → Bool) (a : A) (as_ : List A)
      → count_if p (place le a as_) ≡ (if p a then 1 else 0) + count_if p as_
  unfolding count_if place
  count_if-place p le a [] = refl
  count_if-place p le a (b ∷ bs) = elim (Bool-cases (le a b)) [
    | inl before ↦ rw before refl
    | inr after ↦ rw after (omega (arith, count_if-place p le a bs))
  ]

  pub count_if-sorted :
      (p : A → Bool) (le : A → A → Bool) (as_ : List A)
      → count_if p (sorted le as_) ≡ count_if p as_
  unfolding count_if sorted
  count_if-sorted p le [] = refl
  count_if-sorted p le (a ∷ as_) =
      count_if-place p le a (sorted le as_)
      ∙ ap (λ n. (if p a then 1 else 0) + n) (count_if-sorted p le as_)

  count_if-true : (as_ : List A) → count_if (λ _. true) as_ ≡ length as_
  unfolding count_if
  count_if-true [] = refl
  count_if-true (a ∷ as_) = omega (arith, count_if-true as_)

  pub length-sorted : (le : A → A → Bool) (as_ : List A) → length (sorted le as_) ≡ length as_
  length-sorted le as_ =
      sym (count_if-true (sorted le as_)) ∙ count_if-sorted (λ _. true) le as_ ∙ count_if-true as_

-- What holds of all elements holds of them sorted.
module _ {A : Type 0} (P : A → Type 0) (le : A → A → Bool) where
  All-place_of : (a : A) (as_ : List A) → P a → All P as_ → All P (place le a as_)
  unfolding place
  All-place_of a [] h all = (h, tt)
  All-place_of a (b ∷ bs) h (first, all) = elim (Bool-cases (le a b)) [
    | inl before ↦ rw (before, All) (h, (first, all))
    | inr after ↦ rw (after, All) (first, All-place_of a bs h all)
  ]

  pub All-sorted : (as_ : List A) → All P as_ → All P (sorted le as_)
  unfolding sorted
  All-sorted [] all = tt
  All-sorted (a ∷ as_) (first, all) = All-place_of a (sorted le as_) first (All-sorted as_ all)

-- What holds of them sorted holds of all.
module _ {A : Type 0} (P : A → Type 0) (le : A → A → Bool) where
  of-All-if :
      (a b : A) (bs rest : List A) (before : Bool)
      → (All P rest → P a × All P bs)
      → All P (if before then a ∷ b ∷ bs else b ∷ rest)
      → P a × All P (b ∷ bs)
  of-All-if a b bs rest true split (h, all) = (h, all)
  of-All-if a b bs rest false split (first, all) = let (h, later) = split all in (h, (first, later))

  of-All-place : (a : A) (as_ : List A) → All P (place le a as_) → P a × All P as_
  unfolding place
  of-All-place a [] (h, all) = (h, tt)
  of-All-place a (b ∷ bs) all = of-All-if a b bs (place le a bs) (le a b) (of-All-place a bs) all

  pub of-All-sorted : (as_ : List A) → All P (sorted le as_) → All P as_
  unfolding sorted
  of-All-sorted [] all = tt
  of-All-sorted (a ∷ as_) all =
      let (h, rest) = of-All-place a (sorted le as_) all in (h, of-All-sorted as_ rest)

abbrev pub IsSorted : List ℕ → Type 0
IsSorted [] = Unit
IsSorted (n ∷ ns) = All (λ m. n ≤ m) ns × IsSorted ns

All-le : (k n : ℕ) (ns : List ℕ) → k ≤ n → All (λ m. n ≤ m) ns → All (λ m. k ≤ m) ns
All-le k n [] h all = tt
All-le k n (m ∷ ns) h (first, all) = (omega arith, All-le k n ns h all)

place-IsSorted : (n : ℕ) (ns : List ℕ) → IsSorted ns → IsSorted (place leb n ns)
unfolding place
place-IsSorted n [] h = (tt, tt)
place-IsSorted n (m ∷ ns) (all, h) = elim (Bool-cases (leb n m)) [
  | inl before ↦
      let le : n ≤ m = ground arith in rw (before, IsSorted) ((le, All-le n m ns le all), (all, h))
  | inr after ↦
      let le : m ≤ n = ground arith in
      rw (after, IsSorted) (All-place_of (λ k. m ≤ k) leb n ns le all, place-IsSorted n ns h)
]

sorted-IsSorted : (ns : List ℕ) → IsSorted (sorted leb ns)
unfolding sorted
sorted-IsSorted [] = tt
sorted-IsSorted (n ∷ ns) = place-IsSorted n (sorted leb ns) (sorted-IsSorted ns)

abbrev pub at_most : ℕ → List ℕ → ℕ
at_most v = count_if (λ n. leb n v)

abbrev pub below : ℕ → List ℕ → ℕ
below v = count_if (λ n. ltb n v)

none_below : (v : ℕ) (ns : List ℕ) → All (λ m. v ≤ m) ns → below v ns ≡ 0
unfolding count_if
none_below v [] all = refl
none_below v (n ∷ ns) (first, all) = ground (arith, none_below v ns all)

-- An element stands at its place with enough elements up to it and not too many before it.
IsRanked : ℕ → ℕ → List ℕ → Type 0
IsRanked i v ns = (suc i ≤ at_most v ns) × (below v ns ≤ i)

ranked :
    (ns : List ℕ) (i : ℕ)
    → IsSorted ns
    → i < length ns
    → (v : ℕ) × (get_elem? ns i ≡ some v)
      × IsRanked i v ns
      × ((k : ℕ) → All (λ m. k ≤ m) ns → k ≤ v)
unfolding IsRanked count_if
ranked [] i h inside = absurd (omega (arith, inside))
ranked (n ∷ ns) zero (all, h) inside =
    (n, refl, (ground arith, ground (arith, none_below n ns all)), λ k bound. bound.0)
ranked (n ∷ ns) (suc i) (all, h) inside =
    let (v, found, (enough, few), least) = ranked ns i h (omega arith) in
    let le : n ≤ v = least n all in
    (v, found, (ground arith, ground arith), λ k bound. least k bound.1)

pub get_elem?-sorted :
    (ns : List ℕ) (i : ℕ)
    → i < length ns
    → (v : ℕ) × (get_elem? (sorted leb ns) i ≡ some v) × (suc i ≤ at_most v ns) × (below v ns ≤ i)
unfolding IsRanked
get_elem?-sorted ns i inside =
    let (v, found, (enough, few), _) =
      ranked (sorted leb ns) i (sorted-IsSorted ns) (rw (length-sorted leb ns) inside) in
    (
      v,
      found,
      rw (sym (count_if-sorted (λ n. leb n v) leb ns)) enough,
      rw (sym (count_if-sorted (λ n. ltb n v) leb ns)) few,
    )
