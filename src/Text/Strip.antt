-- ===== src/Text/Strip.antt =====
-- What `strip` keeps.
use Prim.Native.Char.{code}
use Prim.Native.String.{[], ◌∷◌, ◌++◌}
use text.Mathlib.TextLemmas.{nil-append, cons-append}
use secure_gpu_inference_gat.Prelude.{
  ◌≤◌, String, ◌≡◌, refl, false, ◌↔◌, ◌⊎◌, inl, inr, arith, Bool-cases,
}
use secure_gpu_inference_gat.Text.{len, is_empty, is_space, lstrip, rstrip, strip}

-- Some character of the text is not blank.
abbrev pub HasInk : String → Type 0
HasInk [] = ⊥
HasInk (c ∷ s) = (is_space (code c) ≡ false) ⊎ HasInk s

HasInk-lstrip : (s : String) → HasInk (lstrip s) ↔ HasInk s
unfolding lstrip
HasInk-lstrip [] = (λ h. h, λ h. h)
HasInk-lstrip (c ∷ s) = elim (Bool-cases (is_space (code c))) [
  | inl blank ↦ rw blank (
    λ h. inr ((HasInk-lstrip s).0 h),
    λ h. elim h [ inl ink ↦ cc | inr rest ↦ (HasInk-lstrip s).1 rest ],
  )
  | inr ink ↦ (λ h. inl ink, λ h. rw ink (inl ink))
]

rstrip-ink : (s : String) → (is_empty (rstrip s) ≡ false) ↔ HasInk s
unfolding rstrip
rstrip-ink [] = (λ h. cc, λ h. absurd h)
rstrip-ink (c ∷ s) = elim (Bool-cases (is_space (code c))) [
  | inl blank ↦ rw blank (elim (Bool-cases (is_empty (rstrip s))) [
    | inl none_left ↦
        rw none_left (λ h. cc, λ h. elim h [ inl ink ↦ cc | inr rest ↦ cc ((rstrip-ink s).1 rest) ])
    | inr some_left ↦ rw some_left (λ h. inr ((rstrip-ink s).0 some_left), λ h. refl)
  ])
  | inr ink ↦ rw ink (λ h. inl refl, λ h. refl)
]

-- A stripped text is not empty exactly when the text has a character that is not blank.
pub strip-ink : (s : String) → (is_empty (strip s) ≡ false) ↔ HasInk s
unfolding strip
strip-ink s = (
  λ h. (HasInk-lstrip s).0 ((rstrip-ink (lstrip s)).0 h),
  λ h. (rstrip-ink (lstrip s)).1 ((HasInk-lstrip s).1 h),
)

len-lstrip-le : (s : String) → len (lstrip s) ≤ len s
unfolding lstrip
len-lstrip-le [] = omega arith
len-lstrip-le (c ∷ s) = ground (arith, len-lstrip-le s)

len-rstrip-le : (s : String) → len (rstrip s) ≤ len s
unfolding rstrip
len-rstrip-le [] = omega arith
len-rstrip-le (c ∷ s) = ground (arith, len-rstrip-le s)

pub len-strip-le : (s : String) → len (strip s) ≤ len s
unfolding strip
len-strip-le s = omega (arith, len-lstrip-le s, len-rstrip-le (lstrip s))

rstrip_idem : (s : String) → rstrip (rstrip s) ≡ rstrip s
unfolding rstrip
rstrip_idem [] = refl
rstrip_idem (c ∷ s) = ground (arith, rstrip_idem s)

-- A text whose first character is not blank, or the empty text.
abbrev Begins : String → Type 0
Begins [] = Unit
Begins (c ∷ s) = is_space (code c) ≡ false

lstrip-Begins : (s : String) → Begins (lstrip s)
unfolding lstrip
lstrip-Begins [] = tt
lstrip-Begins (c ∷ s) = elim (Bool-cases (is_space (code c))) [
  | inl blank ↦ rw blank (lstrip-Begins s)
  | inr ink ↦ rw ink ink
]

rstrip-Begins : (s : String) → Begins s → Begins (rstrip s)
unfolding rstrip
rstrip-Begins [] h = tt
rstrip-Begins (c ∷ s) h = rw h h

lstrip_of_Begins : (s : String) → Begins s → lstrip s ≡ s
unfolding lstrip
lstrip_of_Begins [] h = refl
lstrip_of_Begins (c ∷ s) h = rw h

-- Stripping twice is stripping once.
pub strip_idem : (s : String) → strip (strip s) ≡ strip s
unfolding strip
strip_idem s =
    rw (lstrip_of_Begins (rstrip (lstrip s)) (rstrip-Begins (lstrip s) (lstrip-Begins s)))
      (rstrip_idem (lstrip s))

-- No character of the text is blank.
abbrev pub HasNoBlank : String → Type 0
HasNoBlank [] = Unit
HasNoBlank (c ∷ s) = (is_space (code c) ≡ false) × HasNoBlank s

pub HasNoBlank-append : (s t : String) → HasNoBlank s → HasNoBlank t → HasNoBlank (s ++ t)
HasNoBlank-append [] t hs ht = rw nil-append ht
HasNoBlank-append (c ∷ s) t hs ht = rw cons-append (hs.0, HasNoBlank-append s t hs.1 ht)

rstrip_of_HasNoBlank : (s : String) → HasNoBlank s → rstrip s ≡ s
unfolding rstrip
rstrip_of_HasNoBlank [] h = refl
rstrip_of_HasNoBlank (c ∷ s) h = rw (h.0, rstrip_of_HasNoBlank s h.1)

lstrip_of_HasNoBlank : (s : String) → HasNoBlank s → lstrip s ≡ s
unfolding lstrip
lstrip_of_HasNoBlank [] h = refl
lstrip_of_HasNoBlank (c ∷ s) h = rw h.0

pub strip_of_HasNoBlank : (s : String) → HasNoBlank s → strip s ≡ s
unfolding strip
strip_of_HasNoBlank s h = rw (lstrip_of_HasNoBlank s h) (rstrip_of_HasNoBlank s h)
