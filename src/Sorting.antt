-- ===== src/Sorting.antt =====
-- `sort.SliceStable` of Go's library, as the use cases call it, with its contract.
use mathlib.Core.List.Perm
use mathlib.Core.List.{Perm}
use pod_backend.Common.{
  map, ◌≡◌, refl, ℕ, zero, suc, length, count_if, take, All, Bool, true, false, List, [], ◌∷◌,
  Bool-cases, if◌then◌else◌, arith, inl, inr,
}

module _ {ℓ} {A : Type ℓ} (less : A → A → Bool) where
  -- In front of the first element that need not stand before it.
  place : A → List A → List A
  place x [] = x ∷ []
  place x (y ∷ ys) = let rest = place x ys in if less y x then y ∷ rest else x ∷ y ∷ ys

  unfoldable pub sort_stable : List A → List A
  unfolding place
  sort_stable [] = []
  sort_stable (x ∷ xs) = place x (sort_stable xs)

  place-perm : (x : A) (xs : List A) → Perm (place x xs) (x ∷ xs)
  unfolding place
  place-perm x [] = Perm.refl _
  place-perm x (y ∷ ys) = elim (Bool-cases (less y x)) [
    | inl e ↦ rw e (Perm.trans (Perm.cons y (place-perm x ys)) (Perm.swap x y ys))
    | inr e ↦ rw e (Perm.refl _)
  ]

  -- The result holds the same elements, as often.
  pub sort_stable-perm : (xs : List A) → Perm (sort_stable xs) xs
  unfolding sort_stable
  sort_stable-perm [] = Perm.refl _
  sort_stable-perm (x ∷ xs) =
      Perm.trans (place-perm x (sort_stable xs)) (Perm.cons x (sort_stable-perm xs))

module _ {ℓ κ} {A : Type ℓ} {B : Type κ} (less : A → A → Bool) (f : A → B) where
  place-map_perm : (x : A) (xs : List A) → Perm (map f (place less x xs)) (f x ∷ map f xs)
  unfolding place
  place-map_perm x [] = Perm.refl _
  place-map_perm x (y ∷ ys) = elim (Bool-cases (less y x)) [
    | inl e ↦ rw e (Perm.trans (Perm.cons (f y) (place-map_perm x ys)) (Perm.swap (f x) (f y) _))
    | inr e ↦ rw e (Perm.refl _)
  ]

  -- The same for what a function makes of the elements.
  pub sort_stable-map_perm : (xs : List A) → Perm (map f (sort_stable less xs)) (map f xs)
  unfolding sort_stable
  sort_stable-map_perm [] = Perm.refl _
  sort_stable-map_perm (x ∷ xs) =
      Perm.trans (place-map_perm x (sort_stable less xs))
        (Perm.cons (f x) (sort_stable-map_perm xs))

-- No element belongs in front of the one before it.
abbrev pub IsSorted {ℓ} : {A : Type ℓ} → (A → A → Bool) → List A → Type 0
IsSorted less [] = Unit
IsSorted less (x ∷ []) = Unit
IsSorted less (x ∷ y ∷ ys) = (less y x ≡ false) × IsSorted less (y ∷ ys)

module _ {ℓ} {A : Type ℓ} (less : A → A → Bool) where
  place-IsSorted :
      ((x y : A) → less x y ≡ true → less y x ≡ false)
      → (x : A) (xs : List A) → IsSorted less xs
      → IsSorted less (place less x xs)
  unfolding place
  place-IsSorted asym x [] s = tt
  place-IsSorted asym x (y ∷ []) s = ground (arith, asym y x)
  place-IsSorted asym x (y ∷ z ∷ zs) s =
      ground (arith, asym y x, asym z x, place-IsSorted asym x (z ∷ zs) s.1)

  -- The result is in order, where no two elements belong in front of one another.
  pub sort_stable-IsSorted :
      ((x y : A) → less x y ≡ true → less y x ≡ false)
      → (xs : List A) → IsSorted less (sort_stable less xs)
  unfolding sort_stable
  sort_stable-IsSorted asym [] = tt
  sort_stable-IsSorted asym (x ∷ xs) =
      place-IsSorted asym x (sort_stable less xs) (sort_stable-IsSorted asym xs)

module _ {ℓ} {A : Type ℓ} (less : A → A → Bool) where
  length-place : (x : A) (xs : List A) → length (place less x xs) ≡ suc (length xs)
  unfolding place
  length-place x [] = refl
  length-place x (y ∷ ys) = ground (arith, length-place x ys)

  pub length-sort_stable : (xs : List A) → length (sort_stable less xs) ≡ length xs
  unfolding sort_stable
  length-sort_stable [] = refl
  length-sort_stable (x ∷ xs) =
      ground (arith, length-place x (sort_stable less xs), length-sort_stable xs)

  count_if-place :
      (p : A → Bool) (x : A) (xs : List A) → count_if p (place less x xs) ≡ count_if p (x ∷ xs)
  unfolding place count_if
  count_if-place p x [] = refl
  count_if-place p x (y ∷ ys) = ground (arith, count_if-place p x ys)

  pub count_if-sort_stable :
      (p : A → Bool) (xs : List A) → count_if p (sort_stable less xs) ≡ count_if p xs
  unfolding sort_stable count_if
  count_if-sort_stable p [] = refl
  count_if-sort_stable p (x ∷ xs) =
      omega (arith, count_if-place p x (sort_stable less xs), count_if-sort_stable p xs)

  place-All : (p : A → Bool) (x : A) (xs : List A) → p x ≡ true → All p xs → All p (place less x xs)
  unfolding place
  place-All p x [] h a = (h, tt)
  place-All p x (y ∷ ys) h a = ground (arith, place-All p x ys h a.1)

  pub sort_stable-All : (p : A → Bool) (xs : List A) → All p xs → All p (sort_stable less xs)
  unfolding sort_stable
  sort_stable-All p [] a = tt
  sort_stable-All p (x ∷ xs) a = place-All p x (sort_stable less xs) a.0 (sort_stable-All p xs a.1)

module _ {ℓ} {A : Type ℓ} (less : A → A → Bool) where
  pub IsSorted-take : (n : ℕ) (xs : List A) → IsSorted less xs → IsSorted less (take n xs)
  IsSorted-take zero xs s = tt
  IsSorted-take (suc n) [] s = tt
  IsSorted-take (suc zero) (x ∷ []) s = tt
  IsSorted-take (suc (suc n)) (x ∷ []) s = tt
  IsSorted-take (suc zero) (x ∷ y ∷ ys) s = tt
  IsSorted-take (suc (suc n)) (x ∷ y ∷ ys) s = (s.0, IsSorted-take (suc n) (y ∷ ys) s.1)
