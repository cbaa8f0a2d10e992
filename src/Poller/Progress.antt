-- ===== src/Poller/Progress.antt =====
-- Against an API that serves the chain, and a handler that takes everything, polls make progress.
use pod_backend.Common.{
  ℕ, ◌≡◌, refl, subst, ap, ◌∙◌, ◌<◌, true, Bool-cases, inl, inr, Option, none, some, List, [], ◌∷◌,
  ◌++◌, Text, leb_ℤ, pos, All, All-keep_if, keep_if-All, keep_if, count_if, ok, eqb, codes, text_eq,
}
use pod_backend.Poller.Accounting.{Accounts, Handles, is_at_most}
use pod_backend.Poller.Backfilling.{Filled}
use pod_backend.Poller.Ordering.{
  IsBehind, has_key, normalize-IsBehind, normalize-All, resort-IsBehind,
}
use pod_backend.Poller.Polls.{hand_over-Accounts, fill_gap-Filled, none_counted}
use pod_backend.Poller.Returning.{
  Chain, IsDocumented, FirstWithin, Ends, backfill-Ends, is_linked, is_within,
}
use pod_backend.Poller.Transactions.{
  Transaction, lt_value, lt_less, transaction_dedup_key, normalize_transactions_by_lt,
}
use pod_backend.Poller.{
  Poller, PollEffect, Source, Backfilled, filled, failed, out_of_fuel, is_newer_than,
  new_transactions, no_transactions, fill_gap, finish, poll,
}
use pod_backend.Sorting.{sort_stable, sort_stable-All}

module _ {H : Type 0} (source : Source H) where
  append-none : (xs ys : List Transaction) → ys ≡ [] → xs ++ ys ≡ xs
  append-none [] ys e = e
  append-none (x ∷ xs) ys e = ap (λ l. x ∷ l) (append-none xs ys e)

  -- What a poll that handles everything has done.
  pub record Advance (k last' : Text) (h h' : H) : Type 0 where
    pub done : List Transaction
    pub includes : 0 < count_if (has_key source.big k) done
    pub handles : Handles source done h h'
    pub passed : All (is_at_most source last') done

  all_done :
      (k last last' : Text) (h h' : H) (txs : List Transaction)
      → ((tx : Transaction) (h : H) → (source.handle_transaction tx h).0 ≡ ok tt)
      → 0 < count_if (has_key source.big k) txs
      → Accounts source txs last last' h h'
      → Advance k last' h h'
  all_done k last last' h h' txs takes c a = elim a.stopped [
    | inl (e, s) ↦ record {
      done = a.done;
      includes =
          subst (λ l. 0 < count_if (has_key source.big k) l) (a.parts ∙ append-none a.done a.rest e)
            c;
      handles = subst (Handles source a.done h) s a.handles;
      passed = a.passed;
    }
    | inr (tx, _, e, _, f) ↦ absurd (let t = takes tx a.state in let u = ap (λ q. q.0) f in cc)
  ]

  -- A poll that has returned, and has handled everything.
  abbrev Advanced : Text → H → Option (Poller × H × List PollEffect) → Type 0
  Advanced k h none = ⊥
  Advanced k h (some (p', h', _)) = Advance k p'.last_processed_lt h h'

  finish-Advanced :
      (k : Text) (b : Backfilled) (p : Poller) (h : H)
      → ((tx : Transaction) (h : H) → (source.handle_transaction tx h).0 ≡ ok tt)
      → Ends source b
      → Filled source p.last_processed_lt k b
      → Advanced k h (finish source b p h)
  unfolding finish
  finish-Advanced k (failed n) p h takes e f = absurd e
  finish-Advanced k out_of_fuel p h takes e f = absurd e
  finish-Advanced k (filled txs n) p h takes e f =
      all_done k p.last_processed_lt _ h _ txs takes f.includes
        (hand_over-Accounts source k txs (record p { requests = n }) h f)

  returned :
      (k : Text) (h : H) (r : Option (Poller × H × List PollEffect))
      → Advanced k h r
      → (p' : Poller) × (h' : H) × (effects : List PollEffect) × (r ≡ some (p', h', effects))
        × Advance k p'.last_processed_lt h h'
  returned k h none a = absurd a
  returned k h (some (p', h', effects)) a = (p', h', effects, refl, a)

  first_of_all :
      (fuel : ℕ) (txs : List Transaction)
      → All (is_within source fuel) txs
      → FirstWithin source fuel txs
  first_of_all fuel [] a = tt
  first_of_all fuel (tx ∷ txs) a = a.0

  module _ (chain : Chain) (doc : IsDocumented source chain) (fuel : ℕ) (p : Poller) (h : H)
      (page : List Transaction) (k : Text)
      (z : leb_ℤ (pos 0) (lt_value source.big p.last_processed_lt) ≡ true)
      (g : source.get_transactions p.requests none ≡ ok page)
      (c : 0
        < count_if (has_key source.big k) (keep_if (is_newer_than source p.last_processed_lt) page))
      (l : All (is_linked chain source.big) page) (w : All (is_within source fuel) page) where
    fill_gap-Ends :
        (n : ℕ)
        → Ends source (
            fill_gap source fuel p.last_processed_lt n
              (sort_stable (lt_less source.big) (new_transactions source p.last_processed_lt page)))
    unfolding fill_gap new_transactions
    fill_gap-Ends n =
        let last = p.last_processed_lt in
        let newer = is_newer_than source last in
        let kept = keep_if newer page in
        let new = normalize_transactions_by_lt source.big true kept in
        let sorted = sort_stable (lt_less source.big) new in
        let b = normalize-IsBehind source last k kept (All-keep_if newer page) c in
        let linked = is_linked chain source.big in
        let within = is_within source fuel in
        elim (Bool-cases (eqb last (codes "0"))) [
          | inl e ↦ rw (e, Ends, fill_gap) tt
          | inr e ↦
              rw (e, Ends, fill_gap)
                (backfill-Ends source chain doc last z fuel n sorted (record {
                  key = k;
                  behind = resort-IsBehind source last k new z b;
                  linked =
                      sort_stable-All (lt_less source.big) linked new
                        (normalize-All source.big linked kept (keep_if-All linked newer page l));
                  within = first_of_all fuel sorted (
                      sort_stable-All (lt_less source.big) within new
                        (normalize-All source.big within kept (keep_if-All within newer page w)));
                }))
        ]

    poll-Advanced :
        ((tx : Transaction) (h : H) → (source.handle_transaction tx h).0 ≡ ok tt)
        → Advanced k h (poll source fuel p h)
    unfolding poll
    poll-Advanced takes =
        let last = p.last_processed_lt in
        let newer = is_newer_than source last in
        let new = new_transactions source last page in
        let b = normalize-IsBehind source last k (keep_if newer page) (All-keep_if newer page) c in
        let behind : IsBehind source last k new = unfold new_transactions in b in
        elim (Bool-cases (no_transactions new)) [
          | inl e ↦ absurd (none_counted source k new e behind.includes)
          | inr e ↦
              rw (g, e, Advanced, poll)
                (finish-Advanced k _ _ h takes (fill_gap-Ends _) (
                  fill_gap-Filled source fuel last k _ _
                    (resort-IsBehind source last k new z behind)))
        ]

-- Let the checkpoint be no negative number, and the handler take every transaction. Let the first page
-- arrive, its transactions be linked to transactions of the chain before them, and their times be at
-- most the fuel; and let each request for the page at a transaction of the chain be answered with a
-- page of linked transactions that starts there. Then a poll returns, and each transaction of its first
-- page that is newer than the checkpoint is, by its key, among those that the poll handles, one after
-- the other; the new checkpoint is at or above all of them.
pub poll-Advance :
    {H : Type 0} (source : Source H) (chain : Chain) (fuel : ℕ) (p : Poller) (h : H)
    (page : List Transaction) (tx : Transaction)
    → IsDocumented source chain
    → ((tx : Transaction) (h : H) → (source.handle_transaction tx h).0 ≡ ok tt)
    → leb_ℤ (pos 0) (lt_value source.big p.last_processed_lt) ≡ true
    → source.get_transactions p.requests none ≡ ok page
    → All (is_linked chain source.big) page
    → All (is_within source fuel) page
    → 0
      < count_if
          (has_key source.big (transaction_dedup_key source.big tx))
          (keep_if (is_newer_than source p.last_processed_lt) page)
    → (p' : Poller) × (h' : H) × (effects : List PollEffect) × (poll source fuel p h
        ≡ some (p', h', effects))
      × Advance source (transaction_dedup_key source.big tx) p'.last_processed_lt h h'
poll-Advance source chain fuel p h page tx doc takes z g l w c =
    let k = transaction_dedup_key source.big tx in
    returned source k h (poll source fuel p h)
      (poll-Advanced source chain doc fuel p h page k z g c l w takes)
