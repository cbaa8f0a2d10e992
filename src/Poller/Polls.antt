-- ===== src/Poller/Polls.antt =====
-- What a poll does with the transactions that it fetches.
use pod_backend.Common.{
  ℕ, ◌≡◌, refl, subst, ◌<◌, ◌⊎◌, true, Bool-cases, inl, inr, Option, none, some, List, [], ◌∷◌,
  Text, leb_ℤ, pos, All, All-keep_if, keep_if, count_if, ok, eqb, codes, text_eq, arith,
}
use pod_backend.Poller.{
  Poller, PollEffect, Source, Backfilled, filled, failed, out_of_fuel, is_newer_than,
  no_transactions, hand_over, poll, adjust_interval, handle_error, fill_gap, new_transactions,
  finish,
}
use pod_backend.Poller.Accounting.{Accounts, is_at_least, process-Accounts}
use pod_backend.Poller.Backfilling.{Refused, Filled, backfill-Filled}
use pod_backend.Poller.Ordering.{IsBehind, has_key, normalize-IsBehind, resort-IsBehind}
use pod_backend.Poller.Transactions.{Transaction, lt_value, compare_lt, transaction_dedup_key}

module _ {H : Type 0} (source : Source H) where
  -- A poll that leaves the checkpoint and the handler alone, since a request failed.
  pub record Unchanged (last last' : Text) (h h' : H) : Type 0 where
    pub same_lt : last' ≡ last
    pub same_state : h' ≡ h
    pub because : Refused source

  -- Where the loop over older pages has ended.
  abbrev pub Ended : Text → Text → H → Option (Poller × H × List PollEffect) → Type 0
  Ended last k h none = Unit
  Ended last k h (some (p', h', _)) =
      (txs : List Transaction) × (0 < count_if (has_key source.big k) txs)
      × (Accounts source txs last p'.last_processed_lt h h'
          ⊎ Unchanged last p'.last_processed_lt h h')

  newer_at_least :
      (last : Text) (txs : List Transaction)
      → All (is_newer_than source last) txs
      → All (is_at_least source last) txs
  unfolding is_newer_than compare_lt
  newer_at_least last [] a = tt
  newer_at_least last (tx ∷ txs) a = (ground (arith, a.0), newer_at_least last txs a.1)

  -- What is done with a list that was fetched.
  pub hand_over-Accounts :
      (k : Text) (txs : List Transaction) (p : Poller) (h : H)
      → IsBehind source p.last_processed_lt k txs
      → let (p', h', _) = hand_over source txs p h in
        Accounts source txs p.last_processed_lt p'.last_processed_lt h h'
  unfolding hand_over adjust_interval
  hand_over-Accounts k txs p h f =
      process-Accounts source p.last_processed_lt none txs h f.ordered
        (newer_at_least p.last_processed_lt txs f.newer)

  finish-Ended :
      (k : Text) (b : Backfilled) (p : Poller) (h : H) (known : List Transaction)
      → 0 < count_if (has_key source.big k) known
      → Filled source p.last_processed_lt k b
      → Ended p.last_processed_lt k h (finish source b p h)
  unfolding finish handle_error adjust_interval
  finish-Ended k out_of_fuel p h known c f = tt
  finish-Ended k (failed n) p h known c f =
      (known, c, inr (record { same_lt = refl; same_state = refl; because = f }))
  finish-Ended k (filled txs n) p h known c f =
      (txs, f.includes, inl (hand_over-Accounts k txs (record p { requests = n }) h f))

  pub fill_gap-Filled :
      (fuel : ℕ) (last k : Text) (n : ℕ) (txs : List Transaction)
      → IsBehind source last k txs
      → Filled source last k (fill_gap source fuel last n txs)
  unfolding fill_gap
  fill_gap-Filled fuel last k n txs b = elim (Bool-cases (eqb last (codes "0"))) [
    | inl e ↦ rw (e, Filled, fill_gap) b
    | inr e ↦ rw (e, Filled, fill_gap) (backfill-Filled source fuel last k n txs b)
  ]

  pub none_counted :
      (k : Text) (txs : List Transaction)
      → no_transactions txs ≡ true
      → 0 < count_if (has_key source.big k) txs
      → ⊥
  unfolding count_if
  none_counted k [] e c = omega arith
  none_counted k (tx ∷ txs) e c = cc

  pub poll-Ended :
      (fuel : ℕ) (p : Poller) (h : H) (page : List Transaction) (k : Text)
      → leb_ℤ (pos 0) (lt_value source.big p.last_processed_lt) ≡ true
      → source.get_transactions p.requests none ≡ ok page
      → 0
        < count_if (has_key source.big k) (keep_if (is_newer_than source p.last_processed_lt) page)
      → Ended p.last_processed_lt k h (poll source fuel p h)
  unfolding poll new_transactions
  poll-Ended fuel p h page k z g c =
      let last = p.last_processed_lt in
      let newer = is_newer_than source last in
      let new = new_transactions source last page in
      let b = normalize-IsBehind source last k (keep_if newer page) (All-keep_if newer page) c in
      elim (Bool-cases (no_transactions new)) [
        | inl e ↦ absurd (none_counted k new e b.includes)
        | inr e ↦
            rw (g, e, Ended, poll)
              (finish-Ended k _ _ h new b.includes
                (fill_gap-Filled fuel last k _ _ (resort-IsBehind source last k new z b)))
      ]

-- Where the checkpoint is no negative number, a poll whose first page arrives, and that returns, accounts
-- for each transaction of the page that is newer than the checkpoint: it works on a list that has its key. Either a later request failed, and
-- checkpoint and handler are as they were; or the handler took the transactions of a first part of the
-- list in turn, and either nothing is left, or the next one failed. Then the checkpoint is no lower than
-- before, at or above each transaction that was handled, and above none that was not.
pub poll-Accounts :
    {H : Type 0} (source : Source H) (fuel : ℕ) (p p' : Poller) (h h' : H)
    (effects : List PollEffect) (page : List Transaction) (tx : Transaction)
    → leb_ℤ (pos 0) (lt_value source.big p.last_processed_lt) ≡ true
    → source.get_transactions p.requests none ≡ ok page
    → 0
      < count_if
          (has_key source.big (transaction_dedup_key source.big tx))
          (keep_if (is_newer_than source p.last_processed_lt) page)
    → poll source fuel p h ≡ some (p', h', effects)
    → (txs : List Transaction) × (0
        < count_if (has_key source.big (transaction_dedup_key source.big tx)) txs)
      × (Accounts source txs p.last_processed_lt p'.last_processed_lt h h'
          ⊎ Unchanged source p.last_processed_lt p'.last_processed_lt h h')
poll-Accounts source fuel p p' h h' effects page tx z g c e =
    subst (Ended source p.last_processed_lt (transaction_dedup_key source.big tx) h) e
      (poll-Ended source fuel p h page (transaction_dedup_key source.big tx) z g c)
