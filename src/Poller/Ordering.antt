-- ===== src/Poller/Ordering.antt =====
-- The lists that a poll makes: in order, newer than the checkpoint, and with every key.
use pod_backend.Common.{
  ◌≡◌, refl, ap, ◌≟◌, parse_big-zero, ◌<◌, true, false, Bool, List, [], ◌∷◌, Text, leb_ℤ, pos, All,
  count_if, eqb, contains, text_eq, arith, ltb_text_asym,
}
use pod_backend.Poller.Accounting.{value_less}
use pod_backend.Poller.{Source, is_newer_than}
use pod_backend.Poller.Transactions.{
  Transaction, Big, lt_value, number_of, normalize_lt, compare_lt, lt_less, lt_hash_less,
  transaction_dedup_key, unique_transactions, normalize_transactions_by_lt,
}
use pod_backend.Sorting.{
  IsSorted, sort_stable, sort_stable-IsSorted, sort_stable-All, count_if-sort_stable,
}

-- How many of the transactions have a key.
abbrev pub has_key : Big → Text → Transaction → Bool
has_key big k tx = eqb (transaction_dedup_key big tx) k

module _ (big : Big) where
  unique-keeps :
      (k : Text) (seen : List Text) (txs : List Transaction)
      → contains k seen ≡ false
      → 0 < count_if (has_key big k) txs
      → 0 < count_if (has_key big k) (unique_transactions big seen txs)
  unfolding unique_transactions count_if contains
  unique-keeps k seen [] n h = h
  unique-keeps k seen (tx ∷ txs) n h = elim (transaction_dedup_key big tx ≟ k) [
    | yes p ↦ ground (arith, ap (λ j. contains j seen) p)
    | no p ↦ ground (arith, unique-keeps k (transaction_dedup_key big tx ∷ seen) txs)
  ]

  unique-All :
      (p : Transaction → Bool) (seen : List Text) (txs : List Transaction)
      → All p txs
      → All p (unique_transactions big seen txs)
  unfolding unique_transactions
  unique-All p seen [] a = tt
  unique-All p seen (tx ∷ txs) a =
      ground (arith, unique-All p (transaction_dedup_key big tx ∷ seen) txs a.1)

  hash_asym :
      (x y : Transaction) → lt_hash_less big true x y ≡ true → lt_hash_less big true y x ≡ false
  unfolding lt_hash_less
  hash_asym x y h = ground (arith, ltb_text_asym x.hash y.hash)

  value_of_newer :
      (last lt : Text)
      → leb_ℤ (pos 0) (lt_value big last) ≡ true
      → compare_lt big lt last ≡ true
      → lt_value big lt ≡ number_of big lt
  unfolding lt_value normalize_lt compare_lt number_of
  value_of_newer last [] z n = absurd (ground (arith, parse_big-zero, z, n))
  value_of_newer last (c ∷ lt) z n = refl

pub normalize-All :
    (big : Big) (p : Transaction → Bool) (txs : List Transaction)
    → All p txs
    → All p (normalize_transactions_by_lt big true txs)
unfolding normalize_transactions_by_lt
normalize-All big p txs a =
    sort_stable-All (lt_hash_less big true) p (unique_transactions big [] txs)
      (unique-All big p [] txs a)

module _ {H : Type 0} (source : Source H) where
  -- Transactions behind a checkpoint, in order, one with a given key among them.
  pub record IsBehind (last k : Text) (txs : List Transaction) : Type 0 where
    pub newer : All (is_newer_than source last) txs
    pub ordered : IsSorted (value_less source) txs
    pub includes : 0 < count_if (has_key source.big k) txs

  -- By time and hash in order is by time in order.
  by_hash :
      (txs : List Transaction)
      → IsSorted (lt_hash_less source.big true) txs
      → IsSorted (value_less source) txs
  unfolding lt_hash_less
  by_hash [] s = tt
  by_hash (tx ∷ []) s = tt
  by_hash (tx ∷ ty ∷ txs) s = (ground (arith, s.0), by_hash (ty ∷ txs) s.1)

  by_number :
      (last : Text) (txs : List Transaction)
      → leb_ℤ (pos 0) (lt_value source.big last) ≡ true
      → All (is_newer_than source last) txs
      → IsSorted (lt_less source.big) txs
      → IsSorted (value_less source) txs
  unfolding lt_less is_newer_than
  by_number last [] z a s = tt
  by_number last (tx ∷ []) z a s = tt
  by_number last (tx ∷ ty ∷ txs) z a s = (
    ground (
      arith,
      s.0,
      value_of_newer source.big last tx.lt z a.0,
      value_of_newer source.big last ty.lt z a.1.0,
    ),
    by_number last (ty ∷ txs) z a.1 s.1,
  )

  pub normalize-IsBehind :
      (last k : Text) (txs : List Transaction)
      → All (is_newer_than source last) txs
      → 0 < count_if (has_key source.big k) txs
      → IsBehind last k (normalize_transactions_by_lt source.big true txs)
  unfolding normalize_transactions_by_lt contains
  normalize-IsBehind last k txs a c =
      let less = lt_hash_less source.big true in
      let unique = unique_transactions source.big [] txs in
      record {
        newer =
            sort_stable-All less (is_newer_than source last) unique
              (unique-All source.big (is_newer_than source last) [] txs a);
        ordered =
            by_hash (sort_stable less unique)
              (sort_stable-IsSorted less (λ x y h. hash_asym source.big x y h) unique);
        includes = omega (
          arith,
          count_if-sort_stable less (has_key source.big k) unique,
          unique-keeps source.big k [] txs refl c,
        );
      }

  -- The second sort.
  pub resort-IsBehind :
      (last k : Text) (txs : List Transaction)
      → leb_ℤ (pos 0) (lt_value source.big last) ≡ true
      → IsBehind last k txs
      → IsBehind last k (sort_stable (lt_less source.big) txs)
  resort-IsBehind last k txs z b =
      let less = lt_less source.big in
      let newer' = sort_stable-All less (is_newer_than source last) txs b.newer in
      record {
        newer = newer';
        ordered =
            by_number last (sort_stable less txs) z newer'
              (sort_stable-IsSorted less (λ x y h. unfold lt_less in ground arith) txs);
        includes = omega (arith, count_if-sort_stable less (has_key source.big k) txs, b.includes);
      }
