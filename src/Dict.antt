-- ===== src/Dict.antt =====
-- Python's `dict`: keys in the order of their first insertion. A `Counter` is a dict of numbers
-- whose missing keys read 0.
use secure_gpu_inference_gat.Prelude.{
  ◌≡◌, refl, ℕ, ◌+◌, Option, none, some, List, [], ◌∷◌, map, arith, Eq, ◌==◌, if◌then◌else◌,
}

pub record Dict {ℓ} (K V : Type ℓ) : Type ℓ where
  pub items : List (K × V)

module _ {ℓ} {K V : Type ℓ} where
  abbrev pub empty : Dict K V
  empty = record { items = [] }

  -- `d.values()`
  abbrev pub values : Dict K V → List V
  values d = map (λ e. e.1) d.items

  total : (V → ℕ) → List (K × V) → ℕ
  total size [] = 0
  total size ((k, v) ∷ l) = size v + total size l

  -- The sum of the sizes of all values.
  unfoldable pub sum_sizes : (V → ℕ) → Dict K V → ℕ
  unfolding total
  sum_sizes size d = total size d.items

module _ {ℓ} {V : Type ℓ} (size : V → ℕ) where
  abbrev pub size_at : Option V → ℕ
  size_at none = 0
  size_at (some v) = size v

module _ {ℓ} {K V : Type ℓ} ⦃e : Eq K⦄ where
  lookup : K → List (K × V) → Option V
  lookup k [] = none
  lookup k ((j, v) ∷ l) = if j == k then some v else lookup k l

  insert : K → V → List (K × V) → List (K × V)
  insert k v [] = (k, v) ∷ []
  insert k v ((j, w) ∷ l) = if j == k then (j, v) ∷ l else (j, w) ∷ insert k v l

  -- `d.get(k)`
  unfoldable pub get : Dict K V → K → Option V
  unfolding lookup
  get d k = lookup k d.items

  -- `d[k] = v`
  unfoldable pub put : Dict K V → K → V → Dict K V
  unfolding insert
  put d k v = record { items = insert k v d.items }

  lookup-insert :
      (k j : K) (v : V) (l : List (K × V))
      → lookup j (insert k v l) ≡ (if k == j then some v else lookup j l)
  unfolding lookup insert
  lookup-insert k j v [] = refl
  lookup-insert k j v ((i, w) ∷ l) =
      ground (arith, e.beq_iff k j, e.beq_iff i k, e.beq_iff i j, lookup-insert k j v l)

  pub get-put :
      (d : Dict K V) (k j : K) (v : V) → get (put d k v) j ≡ (if k == j then some v else get d j)
  unfolding get put
  get-put d k j v = lookup-insert k j v d.items

  pub get-empty : (k : K) → get empty k ≡ none
  unfolding get
  get-empty k = refl

  total-insert :
      (size : V → ℕ) (k : K) (v : V) (l : List (K × V))
      → total size (insert k v l) + size_at size (lookup k l) ≡ total size l + size v
  unfolding total insert lookup
  total-insert size k v [] = omega arith
  total-insert size k v ((j, w) ∷ l) = ground (arith, total-insert size k v l)

  -- A value that takes the place of another changes the sum by their difference.
  pub sum_sizes-put :
      (size : V → ℕ) (d : Dict K V) (k : K) (v : V)
      → sum_sizes size (put d k v) + size_at size (get d k) ≡ sum_sizes size d + size v
  unfolding sum_sizes put get
  sum_sizes-put size d k v = total-insert size k v d.items
