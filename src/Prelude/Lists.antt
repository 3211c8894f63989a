-- ===== src/Prelude/Lists.antt =====
-- Lists with native lengths, and membership as a test.
use Prim.Native.Nat.{ℕ, suc, ◌+◌}
use mathlib.Core.Logic.{◌⊎◌, inl, inr}
use mathlib.Core.Path.{◌≡◌}
use mathlib.Core.Bool.{Bool, true, false, ◌&&◌, ◌||◌}
use mathlib.Core.Option.{Option, none, some}
use mathlib.Core.List.{List, [], ◌∷◌, ◌++◌}
use native.Mathlib.Omega.{arith}
use autonomerce.Prelude.Tests.{Eq, ◌==◌, if◌then◌else◌}

module _ {ℓ} {A : Type ℓ} where
  abbrev pub length : List A → ℕ
  length [] = 0
  length (x ∷ xs) = suc (length xs)

  pub length-append : (xs ys : List A) → length (xs ++ ys) ≡ length xs + length ys
  length-append [] ys = omega arith
  length-append (x ∷ xs) ys = omega (arith, length-append xs ys)

  abbrev pub is_empty : List A → Bool
  is_empty [] = true
  is_empty (x ∷ xs) = false

  -- Python's `any` over a test, and `all`
  abbrev pub any : (A → Bool) → List A → Bool
  any p [] = false
  any p (x ∷ xs) = p x || any p xs

  abbrev pub all : (A → Bool) → List A → Bool
  all p [] = true
  all p (x ∷ xs) = p x && all p xs

  abbrev pub filter : (A → Bool) → List A → List A
  filter p [] = []
  filter p (x ∷ xs) = let rest = filter p xs in if p x then x ∷ rest else rest

  abbrev pub get_last? : List A → Option A
  get_last? [] = none
  get_last? (x ∷ []) = some x
  get_last? (x ∷ y ∷ xs) = get_last? (y ∷ xs)

module _ {A : Type 0} ⦃e : Eq A⦄ where
  -- `a in values`
  abbrev pub contains : A → List A → Bool
  contains a = any (λ x. x == a)

  -- an independent reading of `a in values`
  abbrev pub Among : A → List A → Type 0
  Among a [] = ⊥
  Among a (x ∷ xs) = (x ≡ a) ⊎ Among a xs

  pub contains_sound : (a : A) (xs : List A) → contains a xs ≡ true → Among a xs
  contains_sound a [] h = cc
  contains_sound a (x ∷ xs) h = elim (e.discrete x a) [
    | yes p ↦ inl p
    | no p ↦ inr (contains_sound a xs (ground arith))
  ]

  pub contains_complete : (a : A) (xs : List A) → Among a xs → contains a xs ≡ true
  contains_complete a [] h = elim h [ ]
  contains_complete a (x ∷ xs) (inl p) = ground arith
  contains_complete a (x ∷ xs) (inr h) = ground (arith, contains_complete a xs h)
