-- ===== src/Poller/Returning.antt =====
-- Against an API that serves the chain the loop over older pages ends.
use pod_backend.Common.{
  ℕ, zero, suc, ◌≡◌, refl, ap, ◌<◌, ◌≟◌, true, Bool, not, ◌&&◌, Bool-cases, Option-cases, inl, inr,
  none, some, ◌==◌, ◌||◌, List, [], ◌∷◌, ◌++◌, Text, leb_ℤ, ltb_ℤ, pos, All, All-append,
  All-keep_if, keep_if-All, keep_if, count_if, count_if-append, parse_uint, parse_uint-parse_big,
  ok, text_eq, arith, is_empty,
}
use pod_backend.Database.{is_text}
use pod_backend.Poller.Accounting.{value_less}
use pod_backend.Poller.Ordering.{IsBehind, has_key, normalize-IsBehind, normalize-All}
use pod_backend.Poller.{
  Source, Backfilled, filled, is_newer_than, has_gap, backfill, no_transactions,
}
use pod_backend.Poller.Transactions.{
  Transaction, Big, lt_value, number_of, normalize_lt, compare_lt, transaction_dedup_key,
  normalize_transactions_by_lt,
}
use pod_backend.Sorting.{IsSorted}

until_zero :
    (s t a b : Text) → is_text s ≡ true → is_text t ≡ true → s ++ 0 ∷ a ≡ t ++ 0 ∷ b → s ≡ t
unfolding is_text
until_zero [] [] a b h k e = refl
until_zero [] (c ∷ t) a b h k e = ground arith
until_zero (c ∷ s) [] a b h k e = ground arith
until_zero (c ∷ s) (d ∷ t) a b h k e = ground (arith, until_zero s t a b)

-- The transactions that there are in the chain, by their times and hashes.
abbrev pub Chain : Type 0
Chain = ℕ → Text → Bool

-- Whether the transaction before exists, if one is named by a time that is a number above 0.
abbrev pub has_known_prev : Chain → Transaction → Bool
has_known_prev chain tx = elim (parse_uint tx.prev_trans_lt) [
  | none ↦ true
  | some n ↦ n == 0 || chain n tx.prev_trans_hash
]

-- A time without the rune 0, later than that of the transaction before, which exists.
unfoldable pub is_linked : Chain → Big → Transaction → Bool
is_linked chain big tx =
    is_text (normalize_lt tx.lt)
    && ltb_ℤ (lt_value big tx.prev_trans_lt) (lt_value big tx.lt)
    && has_known_prev chain tx

-- Transactions of one key have one time.
same_value :
    (chain : Chain) (big : Big) (tx ty : Transaction)
    → is_linked chain big tx ≡ true
    → is_linked chain big ty ≡ true
    → transaction_dedup_key big tx ≡ transaction_dedup_key big ty
    → lt_value big tx.lt ≡ lt_value big ty.lt
unfolding is_linked transaction_dedup_key lt_value
same_value chain big tx ty h k e = ap (number_of big) (
    until_zero (normalize_lt tx.lt) (normalize_lt ty.lt) tx.hash ty.hash (ground arith)
      (ground arith) e)

module _ {H : Type 0} (source : Source H) where
  -- No transaction is later than the fuel.
  abbrev pub is_within : ℕ → Transaction → Bool
  is_within fuel tx = leb_ℤ (lt_value source.big tx.lt) (pos fuel)

  abbrev pub FirstWithin : ℕ → List Transaction → Type 0
  FirstWithin fuel [] = Unit
  FirstWithin fuel (tx ∷ _) = is_within fuel tx ≡ true

  number_of_prev :
      (s : Text) (prev : ℕ)
      → parse_uint s ≡ some prev
      → not (is_empty s) ≡ true
      → lt_value source.big s ≡ pos prev
  unfolding lt_value number_of normalize_lt
  number_of_prev [] prev p e = cc
  number_of_prev (c ∷ s) prev p e = ground (arith, parse_uint-parse_big (c ∷ s) prev p)

  gap_facts :
      (last : Text) (tx : Transaction)
      → has_gap source last tx ≡ true
      → (not (is_empty tx.prev_trans_lt) ≡ true)
        × (ltb_ℤ (lt_value source.big last) (lt_value source.big tx.prev_trans_lt) ≡ true)
  unfolding has_gap compare_lt
  gap_facts last tx g = ground arith

  -- The loop ends with a list.
  abbrev pub Ends : Backfilled → Type 0
  Ends (filled _ _) = Unit
  Ends _ = ⊥

module _ {H : Type 0} (source : Source H) (chain : Chain) where
  -- The first of a list in order is no later than any other.
  first_is_oldest :
      (ty tx : Transaction) (txs : List Transaction)
      → is_linked chain source.big ty ≡ true
      → All (is_linked chain source.big) (tx ∷ txs)
      → IsSorted (value_less source) (tx ∷ txs)
      → 0 < count_if (has_key source.big (transaction_dedup_key source.big ty)) (tx ∷ txs)
      → leb_ℤ (lt_value source.big tx.lt) (lt_value source.big ty.lt) ≡ true
  unfolding count_if
  first_is_oldest ty tx [] l a s c =
      elim (transaction_dedup_key source.big tx ≟ transaction_dedup_key source.big ty) [
        | yes e ↦ ground (arith, same_value chain source.big tx ty a.0 l e)
        | no n ↦ ground arith
      ]
  first_is_oldest ty tx (tz ∷ txs) l a s c =
      elim (transaction_dedup_key source.big tx ≟ transaction_dedup_key source.big ty) [
        | yes e ↦ ground (arith, same_value chain source.big tx ty a.0 l e)
        | no n ↦ ground (arith, s.0, first_is_oldest ty tz txs l a.1 s.1)
      ]

  -- What is kept of a page still has a key whose time is newer.
  keep-key :
      (last : Text) (ty : Transaction) (page : List Transaction)
      → is_linked chain source.big ty ≡ true
      → is_newer_than source last ty ≡ true
      → All (is_linked chain source.big) page
      → 0 < count_if (has_key source.big (transaction_dedup_key source.big ty)) page
      → 0
        < count_if
            (has_key source.big (transaction_dedup_key source.big ty))
            (keep_if (is_newer_than source last) page)
  unfolding count_if keep_if is_newer_than compare_lt
  keep-key last ty [] l n a c = c
  keep-key last ty (tx ∷ page) l n a c =
      elim (transaction_dedup_key source.big tx ≟ transaction_dedup_key source.big ty) [
        | yes e ↦ ground (arith, same_value chain source.big tx ty a.0 l e)
        | no m ↦ ground (arith, keep-key last ty page l n a.1)
      ]

  -- What TON Center documents of its older pages, where it answers: a page that is read from a
  -- transaction of the chain starts with it, and the transactions of a page are linked.
  pub record IsDocumented : Type 0 where
    pub older_page :
        (n prev : ℕ) (hash : Text)
        → chain (suc prev) hash ≡ true
        → (page : List Transaction) × (ty : Transaction) × (source.get_transactions n
              (some (suc prev, hash))
            ≡ ok page)
          × All (is_linked chain source.big) page
          × (is_linked chain source.big ty ≡ true)
          × (lt_value source.big ty.lt ≡ pos (suc prev))
          × (0 < count_if (has_key source.big (transaction_dedup_key source.big ty)) page)

  linked_later :
      (tx : Transaction)
      → is_linked chain source.big tx ≡ true
      → ltb_ℤ (lt_value source.big tx.prev_trans_lt) (lt_value source.big tx.lt) ≡ true
  unfolding is_linked
  linked_later tx l = ground arith

  linked_known :
      (tx : Transaction) (prev : ℕ)
      → is_linked chain source.big tx ≡ true
      → parse_uint tx.prev_trans_lt ≡ some (suc prev)
      → chain (suc prev) tx.prev_trans_hash ≡ true
  unfolding is_linked
  linked_known tx prev l p = ground arith

  -- The list of a round of the loop, for the requests that are left.
  pub record Round (fuel : ℕ) (last : Text) (txs : List Transaction) : Type 0 where
    pub key : Text
    pub behind : IsBehind source last key txs
    pub linked : All (is_linked chain source.big) txs
    pub within : FirstWithin source fuel txs

  first_within :
      (fuel : ℕ) (ty : Transaction) (txs : List Transaction)
      → is_linked chain source.big ty ≡ true
      → All (is_linked chain source.big) txs
      → IsSorted (value_less source) txs
      → 0 < count_if (has_key source.big (transaction_dedup_key source.big ty)) txs
      → is_within source fuel ty ≡ true
      → FirstWithin source fuel txs
  first_within fuel ty [] l a s c w = tt
  first_within fuel ty (tx ∷ txs) l a s c w = ground (arith, first_is_oldest ty tx txs l a s c)

  backfill-Round :
      (fuel : ℕ) (last : Text) (ty : Transaction) (txs page : List Transaction)
      → All (is_linked chain source.big) txs
      → All (is_newer_than source last) txs
      → All (is_linked chain source.big) page
      → is_linked chain source.big ty ≡ true
      → is_newer_than source last ty ≡ true
      → 0 < count_if (has_key source.big (transaction_dedup_key source.big ty)) page
      → is_within source fuel ty ≡ true
      → Round fuel last (
          normalize_transactions_by_lt source.big true
            (txs ++ keep_if (is_newer_than source last) page))
  backfill-Round fuel last ty txs page a b c l n k w =
      let newer = is_newer_than source last in
      let key = transaction_dedup_key source.big ty in
      let kept = keep_if newer page in
      let has = keep-key last ty page l n c k in
      let all =
        All-append (is_linked chain source.big) txs kept a
          (keep_if-All (is_linked chain source.big) newer page c) in
      let linked = normalize-All source.big (is_linked chain source.big) (txs ++ kept) all in
      let behind =
        normalize-IsBehind source last key (txs ++ kept)
          (All-append newer txs kept b (All-keep_if newer page))
          (omega (arith, has, count_if-append (has_key source.big key) txs kept)) in
      record {
        key = key;
        behind = behind;
        linked = linked;
        within = first_within fuel ty _ l linked behind.ordered behind.includes w;
      }

  module _ (doc : IsDocumented) (last : Text)
      (z : leb_ℤ (pos 0) (lt_value source.big last) ≡ true) where
    pub backfill-Ends :
        (fuel n : ℕ) (txs : List Transaction)
        → Round fuel last txs
        → Ends source (backfill source fuel last n txs)
    unfolding backfill
    backfill-Ends zero n [] r = tt
    backfill-Ends (suc fuel) n [] r = tt
    backfill-Ends zero n (tx ∷ txs) r = elim (Bool-cases (has_gap source last tx)) [
      | inl g ↦
          absurd (
            ground (arith, r.within, (gap_facts source last tx g).1, linked_later tx r.linked.0, z))
      | inr g ↦ rw (g, Ends, backfill) tt
    ]
    backfill-Ends (suc fuel) n (tx ∷ txs) r = elim (Bool-cases (has_gap source last tx)) [
      | inr g ↦ rw (g, Ends, backfill) tt
      | inl g ↦ elim (Option-cases (parse_uint tx.prev_trans_lt)) [
        | inl p ↦ rw (g, p, Ends, backfill) tt
        | inr (zero, p) ↦
            let (e, w) = gap_facts source last tx g in
            let x = number_of_prev source tx.prev_trans_lt 0 p e in absurd (ground (arith, w, x, z))
        | inr (suc prev, p) ↦
            let (page, ty, q, c, l, v, k) =
              doc.older_page n prev tx.prev_trans_hash (linked_known tx prev r.linked.0 p) in
            let (e, w) = gap_facts source last tx g in
            let x = number_of_prev source tx.prev_trans_lt (suc prev) p e in
            elim (Bool-cases (no_transactions (keep_if (is_newer_than source last) page))) [
              | inl f ↦ rw (g, p, q, f, Ends, backfill) tt
              | inr f ↦
                  rw (g, p, q, f, Ends, backfill)
                    (backfill-Ends fuel (suc n) _ (
                      backfill-Round fuel last ty (tx ∷ txs) page r.linked r.behind.newer c l
                        (unfold is_newer_than compare_lt in ground (arith, v, w, x)) k
                        (ground (arith, v, x, r.within, linked_later tx r.linked.0))))
            ]
      ]
    ]
