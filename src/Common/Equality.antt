-- ===== src/Common/Equality.antt =====
-- Equality as an interface: keys of maps and the texts that the code compares.
use Prim.Native.Nat.{ℕ, suc}
use mathlib.Core.Path.{◌≡◌, refl}
use mathlib.Core.Logic.{ite}
use mathlib.Core.Bool.{Bool, true, false, ◌||◌}
use mathlib.Core.List.{List, [], ◌∷◌, ◌++◌}
use native.Mathlib.Omega.{arith}
use native.Mathlib.Decide.{ℕ_discrete}
use pod_backend.Common.Int.{ℤ}
use pod_backend.Common.Lists.{count_if}

pub record Eq {ℓ} (A : Type ℓ) : Type ℓ where
  pub decides : Discrete A

infix 50 ◌≟◌
abbrev pub ◌≟◌ {ℓ} : {A : Type ℓ} ⦃e : Eq A⦄ (a b : A) → Dec (a ≡ b)
◌≟◌ ⦃e⦄ = e.decides

-- The test `a == b` as a Boolean.
abbrev pub eqb {ℓ} : {A : Type ℓ} ⦃e : Eq A⦄ → A → A → Bool
eqb a b = elim (a ≟ b) [ yes _ ↦ true | no _ ↦ false ]

unfoldable pub ℤ_discrete : Discrete ℤ
unfolding ℕ_discrete
ℤ_discrete = hlevel ℕ_discrete

unfoldable pub Text_discrete : Discrete (List ℕ)
unfolding ℕ_discrete
Text_discrete = hlevel ℕ_discrete

instance abbrev pub int_eq : Eq ℤ
int_eq = record { decides = ℤ_discrete }

instance abbrev pub text_eq : Eq (List ℕ)
text_eq = record { decides = Text_discrete }

module _ {ℓ} {A : Type ℓ} ⦃e : Eq A⦄ where
  -- Whether a value stands in a slice.
  unfoldable pub contains : A → List A → Bool
  contains a [] = false
  contains a (x ∷ xs) = eqb x a || contains a xs

  -- The slice without the first occurrence of a value.
  unfoldable pub erase : A → List A → List A
  erase a [] = []
  erase a (x ∷ xs) = ite (x ≟ a) xs (x ∷ erase a xs)

  pub contains-append_self : (a : A) (xs : List A) → contains a (xs ++ a ∷ []) ≡ true
  unfolding contains
  contains-append_self a [] = ground arith
  contains-append_self a (x ∷ xs) = ground (arith, contains-append_self a xs)

  pub contains-append :
      (a : A) (xs ys : List A) → contains a (xs ++ ys) ≡ (contains a xs || contains a ys)
  unfolding contains
  contains-append a [] ys = refl
  contains-append a (x ∷ xs) ys = ground (arith, contains-append a xs ys)

  -- Removing one value keeps every other one.
  pub contains-erase_ne :
      (a b : A) (xs : List A) → ¬ (a ≡ b) → contains b (erase a xs) ≡ contains b xs
  unfolding contains erase
  contains-erase_ne a b [] h = refl
  contains-erase_ne a b (x ∷ xs) h = ground (arith, contains-erase_ne a b xs)

  -- Removing an element that passes a test lowers the count by one.
  pub count-erase :
      (q : A → Bool) (a : A) (xs : List A)
      → contains a xs ≡ true
      → q a ≡ true
      → count_if q xs ≡ suc (count_if q (erase a xs))
  unfolding contains erase count_if
  count-erase q a [] h t = cc
  count-erase q a (x ∷ xs) h t = ground (arith, count-erase q a xs)
