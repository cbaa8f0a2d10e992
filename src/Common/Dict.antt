-- ===== src/Common/Dict.antt =====
-- Go maps as association lists: at most one entry for a key, in no particular order.
use Prim.Native.Nat.{ℕ, ◌+◌, ◌≤◌}
use mathlib.Core.Path.{ap, ◌∙◌, ◌≡◌, refl}
use mathlib.Core.Logic.{inl, inr, ite}
use mathlib.Core.Bool.{Bool, true}
use mathlib.Core.Option.{Option, none, some}
use mathlib.Core.List.{List, [], ◌∷◌}
use native.Mathlib.Omega.{arith}
use pod_backend.Common.Tests.{to_count, Bool-cases}
use pod_backend.Common.Equality.{Eq, ◌≟◌, contains, erase, contains-erase_ne, count-erase}
use pod_backend.Common.Lists.{count_if}

abbrev pub Dict {ℓ κ} : Type ℓ → Type κ → Type (ℓ ⊔ κ)
Dict K V = List (K × V)

module _ {ℓ} {K V : Type ℓ} ⦃e : Eq K⦄ where
  unfoldable pub lookup : K → Dict K V → Option V
  lookup k [] = none
  lookup k ((j, v) ∷ m) = ite (j ≟ k) (some v) (lookup k m)

  unfoldable pub insert : K → V → Dict K V → Dict K V
  insert k v [] = (k, v) ∷ []
  insert k v ((j, w) ∷ m) = ite (j ≟ k) ((j, v) ∷ m) ((j, w) ∷ insert k v m)

  unfoldable pub delete : K → Dict K V → Dict K V
  delete k [] = []
  delete k ((j, w) ∷ m) = let rest = delete k m in ite (j ≟ k) rest ((j, w) ∷ rest)

  pub lookup-insert :
      (k j : K) (v : V) (m : Dict K V) → lookup j (insert k v m) ≡ ite (k ≟ j) (some v) (lookup j m)
  unfolding lookup insert
  lookup-insert k j v [] = refl
  lookup-insert k j v ((i, w) ∷ m) = ground (arith, lookup-insert k j v m)

  pub lookup-delete :
      (k j : K) (m : Dict K V) → lookup j (delete k m) ≡ ite (k ≟ j) none (lookup j m)
  unfolding lookup delete
  lookup-delete k j [] = ground arith
  lookup-delete k j ((i, w) ∷ m) = ground (arith, lookup-delete k j m)

  -- No key has two entries.
  abbrev pub Unique : Dict K V → Type ℓ
  Unique [] = Unit
  Unique ((k, v) ∷ m) = (lookup k m ≡ none) × Unique m

  -- How many entries pass a test on their value.
  unfoldable pub count : (V → Bool) → Dict K V → ℕ
  count p [] = 0
  count p ((k, v) ∷ m) = to_count (p v) + count p m

  pub insert-Unique : (k : K) (v : V) (m : Dict K V) → Unique m → Unique (insert k v m)
  unfolding lookup insert
  insert-Unique k v [] u = (refl, tt)
  insert-Unique k v ((j, w) ∷ m) u = ground (arith, lookup-insert k j v m, insert-Unique k v m u.1)

  pub delete-Unique : (k : K) (m : Dict K V) → Unique m → Unique (delete k m)
  unfolding lookup delete
  delete-Unique k [] u = tt
  delete-Unique k ((j, w) ∷ m) u = ground (arith, lookup-delete k j m, delete-Unique k m u.1)

  -- Writing an entry adds at most that entry to a count.
  pub count-insert-le :
      (p : V → Bool) (k : K) (v : V) (m : Dict K V)
      → count p (insert k v m) ≤ count p m + to_count (p v)
  unfolding count insert
  count-insert-le p k v [] = omega arith
  count-insert-le p k v ((j, w) ∷ m) = ground (arith, count-insert-le p k v m)

  pub count-delete-le : (p : V → Bool) (k : K) (m : Dict K V) → count p (delete k m) ≤ count p m
  unfolding count delete
  count-delete-le p k [] = omega arith
  count-delete-le p k ((j, w) ∷ m) = ground (arith, count-delete-le p k m)

  -- A weaker test counts at least as many.
  pub count_mono :
      (p q : V → Bool)
      → ((v : V) → p v ≡ true → q v ≡ true)
      → (m : Dict K V) → count p m ≤ count q m
  unfolding count
  count_mono p q h [] = omega arith
  count_mono p q h ((k, v) ∷ m) = ground (arith, h v, count_mono p q h m)

  -- An entry behind one with a key of its own is still found.
  pub lookup-tail :
      (k : K) (v : V) (m : Dict K V) (j : K) (w : V)
      → lookup k m ≡ none
      → lookup j m ≡ some w
      → (¬ (k ≡ j)) × (lookup j ((k, v) ∷ m) ≡ some w)
  unfolding lookup
  lookup-tail k v m j w h e = elim (k ≟ j) [
    | yes p ↦ absurd (cc (ap (λ i. lookup i m) p))
    | no n ↦ (n, ground arith)
  ]

  pub lookup-head : (k : K) (v : V) (m : Dict K V) → lookup k ((k, v) ∷ m) ≡ some v
  unfolding lookup
  lookup-head k v m = ground arith

  -- Pigeonholes: entries that pass a test, each with its key in a list and passed there by another
  -- test, are no more than the elements of the list that pass that test.
  pub count-le :
      (p : V → Bool) (q : K → Bool) (m : Dict K V) (ks : List K)
      → Unique m
      → ((k : K) (v : V) → lookup k m ≡ some v → p v ≡ true → (contains k ks ≡ true) × (q k ≡ true))
      → count p m ≤ count_if q ks
  unfolding count
  count-le p q [] ks u h = omega arith
  count-le p q ((k, v) ∷ m) ks u h = elim (Bool-cases (p v)) [
    | inl e ↦
        let here = h k v (lookup-head k v m) e in
        let rest = count-le p q m (erase k ks) u.1 (λ j w f t.
          let (n, g) = lookup-tail k v m j w u.0 f in
          let (c, d) = h j w g t in (contains-erase_ne k j ks n ∙ c, d)) in
        rw e (omega (arith, rest, count-erase q k ks here.0 here.1))
    | inr e ↦
        rw e (
          omega (arith, count-le p q m ks u.1 (λ j w f t. h j w (lookup-tail k v m j w u.0 f).1 t)))
  ]
