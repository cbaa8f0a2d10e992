-- ===== src/Common/Slices.antt =====
-- Pages of a list: the part behind an offset, cut at a limit.
use Prim.Native.Nat.{ℕ, zero, suc, ◌+◌, ◌-◌, ◌≤◌}
use mathlib.Core.Path.{◌≡◌, refl, ap, sym, ◌∙◌}
use mathlib.Core.Logic.{inl, inr}
use mathlib.Core.List.{List, [], ◌∷◌, ◌++◌}
use native.Mathlib.Omega.{arith}
use pod_backend.Common.Lists.{length, take, drop, length-drop}
use pod_backend.Common.Tests.{Bool-cases, leb, ltb, leb→le, ltb→lt, if◌then◌else◌}

module _ {ℓ} {A : Type ℓ} where
  drop-all : (n : ℕ) (xs : List A) → length xs ≤ n → drop n xs ≡ []
  drop-all zero [] h = refl
  drop-all zero (x ∷ xs) h = absurd (omega arith)
  drop-all (suc n) [] h = refl
  drop-all (suc n) (x ∷ xs) h = drop-all n xs (omega arith)

  take-all : (n : ℕ) (xs : List A) → length xs ≤ n → take n xs ≡ xs
  take-all zero [] h = refl
  take-all zero (x ∷ xs) h = absurd (omega arith)
  take-all (suc n) [] h = refl
  take-all (suc n) (x ∷ xs) h = ground (arith, take-all n xs (omega arith))

  take-none : (n : ℕ) → take {A = A} n [] ≡ []
  take-none zero = refl
  take-none (suc n) = refl

  drop-none : (n : ℕ) → drop {A = A} n [] ≡ []
  drop-none zero = refl
  drop-none (suc n) = refl

  pub take-more : (n m : ℕ) (xs : List A) → take n xs ++ take m (drop n xs) ≡ take (n + m) xs
  take-more zero m xs = ap (λ k. take k xs) (omega arith)
  take-more (suc n) m [] = take-none m ∙ sym (take-none (suc n + m))
  take-more (suc n) m (x ∷ xs) =
      let e : suc (n + m) ≡ suc n + m = omega arith in
      ap (λ l. x ∷ l) (take-more n m xs) ∙ ap (λ k. take k (x ∷ xs)) e

  pub drop-more : (n m : ℕ) (xs : List A) → drop m (drop n xs) ≡ drop (n + m) xs
  drop-more zero m xs = ap (λ k. drop k xs) (omega arith)
  drop-more (suc n) m [] = drop-none m ∙ sym (drop-none (suc n + m))
  drop-more (suc n) m (x ∷ xs) =
      let e : suc (n + m) ≡ suc n + m = omega arith in
      drop-more n m xs ∙ ap (λ k. drop k (x ∷ xs)) e

  -- The slice `xs[offset:end]` behind the guards on both ends.
  pub slice-cut :
      (xs : List A) (limit offset : ℕ)
      → (if leb (length xs) offset
          then []
          else (let end = if ltb (length xs) (offset + limit) then length xs else offset + limit in
              take (end - offset) (drop offset xs)))
        ≡ take limit (drop offset xs)
  slice-cut xs limit offset = elim (Bool-cases (leb (length xs) offset)) [
    | inl e ↦ rw (e, drop-all offset xs (leb→le _ _ e)) (sym (take-none limit))
    | inr e ↦ elim (Bool-cases (ltb (length xs) (offset + limit))) [
      | inl l ↦
          rw (e, l)
            (take-all (length xs - offset) (drop offset xs) (omega (arith, length-drop offset xs))
              ∙ sym (
                  take-all limit (drop offset xs)
                    (omega (arith, length-drop offset xs, ltb→lt (length xs) (offset + limit) l))))
      | inr l ↦ rw (e, l) (ap (λ k. take k (drop offset xs)) (omega arith))
    ]
  ]
