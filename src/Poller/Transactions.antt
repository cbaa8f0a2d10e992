-- ===== src/Poller/Transactions.antt =====
-- The order of transactions in internal/infrastructure/toncenter/poller.go, and `Transaction` of
-- client.go beside it.
use pod_backend.Common.{
  Bool, none, some, List, [], ◌∷◌, ◌++◌, Text, codes, is_empty, ℤ, eqb_ℤ, ltb_ℤ, ltb_text,
  parse_big, contains, text_eq, if◌then◌else◌,
}
use pod_backend.Sorting.{sort_stable}

-- `Transaction`: the fields that are read. Messages are JSON texts.
pub record Transaction : Type 0 where
  pub lt : Text
  pub hash : Text
  pub utime : ℤ
  pub in_msg : Text
  pub out_msgs : Text
  pub prev_trans_lt : Text
  pub prev_trans_hash : Text

-- What a `big.Int` holds after `SetString` has refused a text, which its documentation leaves open.
abbrev pub Big : Type 0
Big = Text → ℤ

-- `normalizeLt`
unfoldable pub normalize_lt : Text → Text
normalize_lt lt = if is_empty lt then codes "0" else lt

module _ (big : Big) where
  unfoldable pub number_of : Text → ℤ
  number_of s = elim (parse_big s) [ none ↦ big s | some z ↦ z ]

  -- The number that `compareLtValues` reads.
  unfoldable pub lt_value : Text → ℤ
  lt_value lt = number_of (normalize_lt lt)

  -- `compareLt`: whether the first is newer.
  unfoldable pub compare_lt : Text → Text → Bool
  compare_lt a b = ltb_ℤ (lt_value b) (lt_value a)

  -- The second sort of a poll: by the time alone, which it does not normalise.
  unfoldable pub lt_less : Transaction → Transaction → Bool
  lt_less a b = ltb_ℤ (number_of a.lt) (number_of b.lt)

  -- The order of `sortTransactionsByLt`.
  unfoldable pub lt_hash_less : Bool → Transaction → Transaction → Bool
  lt_hash_less ascending a b =
      if eqb_ℤ (lt_value a.lt) (lt_value b.lt)
      then ltb_text a.hash b.hash
      else if ascending
      then ltb_ℤ (lt_value a.lt) (lt_value b.lt)
      else ltb_ℤ (lt_value b.lt) (lt_value a.lt)

  -- `transactionDedupKey`
  unfoldable pub transaction_dedup_key : Transaction → Text
  transaction_dedup_key tx = normalize_lt tx.lt ++ 0 ∷ tx.hash

  -- The first transaction of each key, for the keys that were seen.
  unfoldable pub unique_transactions : List Text → List Transaction → List Transaction
  unique_transactions seen [] = []
  unique_transactions seen (tx ∷ txs) =
      let rest = unique_transactions (transaction_dedup_key tx ∷ seen) txs in
      if contains (transaction_dedup_key tx) seen then rest else tx ∷ rest

  -- `normalizeTransactionsByLt`. The sort takes the map in any order, and no two of its keys tie unless
  -- two spellings of a number do.
  unfoldable pub normalize_transactions_by_lt : Bool → List Transaction → List Transaction
  normalize_transactions_by_lt ascending txs =
      sort_stable (lt_hash_less ascending) (unique_transactions [] txs)
