-- ===== src/Poller/Backfilling.antt =====
-- The loop that fetches older pages: what it returns, and that it returns.
use pod_backend.Common.{
  ℕ, zero, suc, ◌≡◌, true, Bool-cases, Option-cases, Outcome-cases, inl, inr, Option, some, List,
  [], ◌∷◌, ◌++◌, Text, All-append, All-keep_if, keep_if, count_if-append, parse_uint, err, text_eq,
  arith,
}
use pod_backend.Poller.Ordering.{IsBehind, has_key, normalize-IsBehind}
use pod_backend.Poller.{
  Source, Backfilled, filled, failed, out_of_fuel, is_newer_than, has_gap, backfill,
  no_transactions,
}
use pod_backend.Poller.Transactions.{Transaction, normalize_transactions_by_lt}

module _ {H : Type 0} (source : Source H) where
  -- A request that the API did not answer.
  pub record Refused : Type 0 where
    pub request : ℕ
    pub place : Option (ℕ × Text)
    pub error : Text
    pub refused : source.get_transactions request place ≡ err error

  abbrev pub Filled : Text → Text → Backfilled → Type 0
  Filled last k (filled txs _) = IsBehind source last k txs
  Filled last k (failed _) = Refused
  Filled last k out_of_fuel = Unit

  merged :
      (last k : Text) (txs page : List Transaction)
      → IsBehind source last k txs
      → IsBehind source last k (
          normalize_transactions_by_lt source.big true
            (txs ++ keep_if (is_newer_than source last) page))
  merged last k txs page b =
      let newer = is_newer_than source last in
      normalize-IsBehind source last k (txs ++ keep_if newer page)
        (All-append newer txs (keep_if newer page) b.newer (All-keep_if newer page))
        (omega (arith, b.includes, count_if-append (has_key source.big k) txs (keep_if newer page)))

  pub backfill-Filled :
      (fuel : ℕ) (last k : Text) (n : ℕ) (txs : List Transaction)
      → IsBehind source last k txs
      → Filled last k (backfill source fuel last n txs)
  unfolding backfill
  backfill-Filled zero last k n [] b = b
  backfill-Filled (suc fuel) last k n [] b = b
  backfill-Filled zero last k n (tx ∷ txs) b = elim (Bool-cases (has_gap source last tx)) [
    | inl g ↦ rw (g, Filled, backfill) tt
    | inr g ↦ rw (g, Filled, backfill) b
  ]
  backfill-Filled (suc fuel) last k n (tx ∷ txs) b = elim (Bool-cases (has_gap source last tx)) [
    | inr g ↦ rw (g, Filled, backfill) b
    | inl g ↦ elim (Option-cases (parse_uint tx.prev_trans_lt)) [
      | inl p ↦ rw (g, p, Filled, backfill) b
      | inr (prev, p) ↦
          elim (Outcome-cases (source.get_transactions n (some (prev, tx.prev_trans_hash)))) [
            | inr (e, r) ↦
                rw (g, p, r, Filled, backfill)
                  (record {
                    request = n;
                    place = some (prev, tx.prev_trans_hash);
                    error = e;
                    refused = r;
                  })
            | inl (page, r) ↦
                elim (Bool-cases (no_transactions (keep_if (is_newer_than source last) page))) [
                  | inl f ↦ rw (g, p, r, f, Filled, backfill) b
                  | inr f ↦
                      rw (g, p, r, f, Filled, backfill)
                        (backfill-Filled fuel last k (suc n) _ (merged last k (tx ∷ txs) page b))
                ]
          ]
    ]
  ]
