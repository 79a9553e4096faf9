-- ===== src/Prelude/Raising.antt =====
-- A value or a raised exception.
use mathlib.Core.Path.{◌≡◌, refl}
use mathlib.Core.Bool.{Bool, true, false}
use mathlib.Core.Logic.{◌⊎◌, inl, inr}

pub data Result {ℓ} (E A : Type ℓ) : Type ℓ where
  ok : A → Result E A
  err : E → Result E A

infixl 10 ◌>>=◌
abbrev pub ◌>>=◌ {ℓ} : {E A B : Type ℓ} → Result E A → (A → Result E B) → Result E B
err e >>= rest = err e
ok a >>= rest = rest a

-- `if test: raise e`.
abbrev pub raise_if {ℓ} : {E : Type ℓ} → Bool → E → Result E Unit
raise_if true e = err e
raise_if false e = ok tt

infixl 10 ◌>>◌
abbrev pub ◌>>◌ {ℓ} : {E A B : Type ℓ} → Result E A → Result E B → Result E B
first >> rest = first >>= λ _. rest

-- A chain that gives a value has a first part that gives one.
pub >>=-eq-ok {ℓ} :
    {E A B : Type ℓ} (first : Result E A) (rest : A → Result E B) {last : B}
    → (first >>= rest) ≡ ok last
    → (middle : A) × (first ≡ ok middle) × (rest middle ≡ ok last)
>>=-eq-ok (err e) rest given = cc
>>=-eq-ok (ok middle) rest given = (middle, refl, given)

-- A block that went on past `if test: raise e`.
pub raise_if-eq-ok {ℓ} :
    {E B : Type ℓ} (test : Bool) (e : E) (k : Result E B) {b : B}
    → (raise_if test e >> k) ≡ ok b
    → (test ≡ false) × (k ≡ ok b)
raise_if-eq-ok true e k h = cc
raise_if-eq-ok false e k h = (refl, h)

pub Result-cases {ℓ} :
    {E A : Type ℓ} (m : Result E A) → ((e : E) × (m ≡ err e)) ⊎ ((a : A) × (m ≡ ok a))
Result-cases (err e) = inl (e, refl)
Result-cases (ok a) = inr (a, refl)

-- A chain that raises does so in its first part or in the rest.
pub >>=-eq-err {ℓ} :
    {E A B : Type ℓ} (first : Result E A) (rest : A → Result E B) {e : E}
    → (first >>= rest) ≡ err e
    → (first ≡ err e) ⊎ ((middle : A) × (first ≡ ok middle) × (rest middle ≡ err e))
>>=-eq-err (err e) rest given = inl (cc given)
>>=-eq-err (ok middle) rest given = inr (middle, refl, given)
