-- ===== src/Poller/Accounting.antt =====
-- What one pass over the transactions does with each of them.
use pod_backend.Common.{
  ◌≡◌, refl, ap, true, Bool, Bool-cases, Outcome-cases, inl, inr, ◌⊎◌, List, [], ◌∷◌, ◌++◌, Option,
  some, Text, leb_ℤ, ltb_ℤ, All, ok, err, arith,
}
use pod_backend.Poller.{Source, is_newer_than, process}
use pod_backend.Poller.Transactions.{Transaction, lt_value, compare_lt}
use pod_backend.Sorting.{IsSorted}

module _ {H : Type 0} (source : Source H) where
  -- The handler takes the transactions one after the other, without an error.
  abbrev pub Handles : List Transaction → H → H → Type 0
  Handles [] h h' = h ≡ h'
  Handles (tx ∷ txs) h h' =
      (h1 : H) × (source.handle_transaction tx h ≡ (ok tt, h1)) × Handles txs h1 h'

  -- A time is at most that of a transaction.
  abbrev pub is_at_least : Text → Transaction → Bool
  is_at_least last tx = leb_ℤ (lt_value source.big last) (lt_value source.big tx.lt)

  abbrev pub is_at_most : Text → Transaction → Bool
  is_at_most last tx = leb_ℤ (lt_value source.big tx.lt) (lt_value source.big last)

  abbrev pub value_less : Transaction → Transaction → Bool
  value_less a b = ltb_ℤ (lt_value source.big a.lt) (lt_value source.big b.lt)

  -- Transactions are handled up to one that fails; the time comes to lie between those that were
  -- handled and the others.
  pub record Accounts (txs : List Transaction) (last last' : Text) (h h' : H) : Type 0 where
    pub done : List Transaction
    pub rest : List Transaction
    pub parts : txs ≡ done ++ rest
    pub state : H
    pub handles : Handles done h state
    pub passed : All (is_at_most last') done
    pub ahead : All (is_at_least last') rest
    pub grows : leb_ℤ (lt_value source.big last) (lt_value source.big last') ≡ true
    pub stopped :
        ((rest ≡ []) × (state ≡ h'))
        ⊎ ((tx : Transaction) × (txs : List Transaction) × (e : Text) × (rest ≡ tx ∷ txs)
            × (source.handle_transaction tx state ≡ (err e, h')))

  All-sorted :
      (last : Text) (tx : Transaction) (txs : List Transaction)
      → is_at_least last tx ≡ true
      → IsSorted value_less (tx ∷ txs)
      → All (is_at_least last) txs
  All-sorted last tx [] h s = tt
  All-sorted last tx (ty ∷ txs) h s =
      (ground (arith, s.0), All-sorted last ty txs (ground (arith, s.0)) s.1)

  tail :
      (tx : Transaction) (txs : List Transaction)
      → IsSorted value_less (tx ∷ txs)
      → IsSorted value_less txs
  tail tx [] s = tt
  tail tx (ty ∷ txs) s = s.1

  extend :
      (m last last' : Text) (tx : Transaction) (txs : List Transaction) (h h1 h' : H)
      → source.handle_transaction tx h ≡ (ok tt, h1)
      → leb_ℤ (lt_value source.big last) (lt_value source.big m) ≡ true
      → is_at_most m tx ≡ true
      → Accounts txs m last' h1 h'
      → Accounts (tx ∷ txs) last last' h h'
  extend m last last' tx txs h h1 h' p l t k = record {
    done = tx ∷ k.done;
    rest = k.rest;
    parts = ap (λ l. tx ∷ l) k.parts;
    state = k.state;
    handles = (h1, p, k.handles);
    passed = (ground (arith, k.grows), k.passed);
    ahead = k.ahead;
    grows = ground (arith, k.grows);
    stopped = k.stopped;
  }

  pub process-Accounts :
      (last : Text) (o : Option Text) (txs : List Transaction) (h : H)
      → IsSorted value_less txs
      → All (is_at_least last) txs
      → Accounts txs last
          (process source last o txs h).last_lt
          h
          (process source last o txs h).handler_state
  unfolding process is_newer_than compare_lt
  process-Accounts last o [] h s a = record {
    done = [];
    rest = [];
    parts = refl;
    state = h;
    handles = refl;
    passed = tt;
    ahead = tt;
    grows = ground arith;
    stopped = inl (refl, refl);
  }
  process-Accounts last o (tx ∷ txs) h s a =
      let (r, h') = source.handle_transaction tx h in
      elim (Outcome-cases r) [
        | inr (e, p) ↦
            rw (p, process)
              (record {
                done = [];
                rest = tx ∷ txs;
                parts = refl;
                state = h;
                handles = refl;
                passed = tt;
                ahead = a;
                grows = ground arith;
                stopped = inr (tx, txs, e, refl, ap (λ q. (q, h')) p);
              })
        | inl (u, p) ↦ elim (Bool-cases (compare_lt source.big tx.lt last)) [
          | inl n ↦
              rw (p, process, n)
                (extend tx.lt last _ tx txs h h' _ (ap (λ q. (q, h')) p) (ground arith)
                  (ground arith)
                  (process-Accounts tx.lt (some tx.lt) txs h' (tail tx txs s)
                    (All-sorted tx.lt tx txs (ground arith) s)))
          | inr n ↦
              rw (p, process, n)
                (extend last last _ tx txs h h' _ (ap (λ q. (q, h')) p) (ground arith)
                  (ground arith) (process-Accounts last o txs h' (tail tx txs s) a.1))
        ]
      ]
