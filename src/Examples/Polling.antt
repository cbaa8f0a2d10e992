-- ===== src/Examples/Polling.antt =====
-- Tests of the poller, and each result on it at a concrete input.
use pod_backend.Common.{
  Outcome, sym, subst, ◌||◌, ℕ, suc, ◌<◌, ◌≡◌, ◌⊎◌, refl, true, false, none, some, Option, [], ◌∷◌,
  List, Text, codes, ◌==◌, format_int, parse_big, parse_uint, Text_discrete, ℕ_discrete, add_int64,
  mul_int64, quot_ℤ, ltb_text, Bool, ◌&&◌, eqb, pos, ok, err, count_if, keep_if, All, arith,
  text_eq, if◌then◌else◌, contains,
}
use pod_backend.Database.{is_text}
use pod_backend.Sorting.{sort_stable}
use pod_backend.Poller.{
  Poller, PollEffect, Source, new_poller_with_intervals, set_last_processed_lt, start, poll,
  is_newer_than, new_transactions, adjust_interval, backfill, fill_gap, finish, hand_over,
  handle_error, has_gap, next_backoff_duration, next_interval, process, report_lt,
  normalize_poll_intervals,
}
use pod_backend.Poller.Accounting.{Accounts}
use pod_backend.Poller.Ordering.{has_key}
use pod_backend.Poller.Pace.{IsPaced, created, started, resumed, polled, Reaches-IsPaced}
use pod_backend.Poller.Polls.{Unchanged, poll-Accounts}
use pod_backend.Poller.Progress.{Advance, poll-Advance}
use pod_backend.Poller.Returning.{Chain, IsDocumented, is_linked}
use pod_backend.Poller.Transactions.{
  Transaction, lt_value, transaction_dedup_key, normalize_transactions_by_lt, unique_transactions,
  compare_lt, number_of, normalize_lt, lt_hash_less, lt_less,
}

abbrev tx_of : Text → Text → Transaction
tx_of lt prev = record {
  lt = lt;
  hash = codes "h";
  utime = pos 9;
  in_msg = [];
  out_msgs = [];
  prev_trans_lt = prev;
  prev_trans_hash = codes "h";
}

-- The chain has three transactions. The first page has the last two, newest first; a page that is read
-- from one of the others has what is there and before it, and there is no page at any other place.
abbrev chain : Chain
chain n _ = n == 20 || n == 30

unfoldable page_of : Option (ℕ × Text) → Outcome Text (List Transaction)
page_of none = ok (tx_of (codes "40") (codes "30") ∷ tx_of (codes "30") (codes "20") ∷ [])
page_of (some (n, _)) =
    if n == 20
    then ok (tx_of (codes "20") [] ∷ [])
    else if n == 30
    then ok (tx_of (codes "30") (codes "20") ∷ tx_of (codes "20") [] ∷ [])
    else err (codes "not found")

abbrev first_page : List Transaction
first_page = tx_of (codes "40") (codes "30") ∷ tx_of (codes "30") (codes "20") ∷ []

-- The handler keeps the times, and fails at the time 40 if it is told to.
abbrev source : Bool → Source (List Text)
source fails = record {
  big = λ _. pos 0;
  get_transactions = λ _ at. page_of at;
  handle_transaction = λ tx seen.
      if fails && eqb tx.lt (codes "40") then (err (codes "down"), seen) else (ok tt, tx.lt ∷ seen);
}

abbrev poller : Poller
poller =
    set_last_processed_lt (codes "10")
      (start (new_poller_with_intervals (pos 5000000000) (pos 30000000000)))

-- The keys of a transaction are compared.
unfoldable polling : Bool
unfolding poll new_transactions normalize_transactions_by_lt sort_stable unique_transactions keep_if
    page_of compare_lt lt_value number_of parse_big normalize_lt set_last_processed_lt contains
    Text_discrete transaction_dedup_key lt_hash_less ℕ_discrete format_int parse_uint add_int64
    mul_int64 quot_ℤ ltb_text lt_less adjust_interval backfill fill_gap finish hand_over
    handle_error has_gap is_newer_than next_backoff_duration next_interval process report_lt start
    new_poller_with_intervals normalize_poll_intervals is_linked is_text count_if
polling = true

-- The handler fails at 40: the checkpoint is 30, and the polls slow down no further.
abbrev after_failure : Poller
after_failure = record (start (new_poller_with_intervals (pos 5000000000) (pos 30000000000))) {
  last_processed_lt = codes "30";
  backoff_duration = pos 1000000000;
  requests = 2;
}

poll_stops :
    poll (source true) 40 poller [] ≡ some (after_failure, codes "30" ∷ codes "20" ∷ [], [])
unfolding polling
poll_stops = refl

abbrev tx30 : Transaction
tx30 = tx_of (codes "30") (codes "20")

poll-Accounts_example :
    (txs : List Transaction) × (0
      < count_if (has_key (λ _. pos 0) (transaction_dedup_key (λ _. pos 0) tx30)) txs)
    × (Accounts (source true) txs (codes "10") (codes "30") [] (codes "30" ∷ codes "20" ∷ [])
        ⊎ Unchanged (source true) (codes "10") (codes "30") [] (codes "30" ∷ codes "20" ∷ []))
unfolding polling
poll-Accounts_example =
    poll-Accounts (source true) 40 poller after_failure [] (codes "30" ∷ codes "20" ∷ []) []
      first_page tx30 refl refl (omega arith) poll_stops

Reaches-IsPaced_example : IsPaced after_failure
Reaches-IsPaced_example =
    Reaches-IsPaced (source true) after_failure (codes "30" ∷ codes "20" ∷ []) (
      polled 40 poller after_failure [] (codes "30" ∷ codes "20" ∷ []) [] poll_stops (
        resumed _ [] (codes "10")
          (started _ [] (created (pos 5000000000) (pos 30000000000) [] refl refl))))

-- The page at a place starts with what is there.
abbrev Served : ℕ → Text → Type 0
Served m hash =
    (page : List Transaction) × (ty : Transaction) × (page_of (some (m, hash)) ≡ ok page)
    × All (is_linked chain (λ _. pos 0)) page
    × (is_linked chain (λ _. pos 0) ty ≡ true)
    × (lt_value (λ _. pos 0) ty.lt ≡ pos m)
    × (0 < count_if (has_key (λ _. pos 0) (transaction_dedup_key (λ _. pos 0) ty)) page)

served : (m : ℕ) (hash : Text) → chain m hash ≡ true → Served m hash
unfolding polling
served m hash e = elim (ℕ_discrete m 20) [
  | yes q ↦
      subst (λ n. Served n hash) (sym q)
        (
          tx_of (codes "20") [] ∷ [],
          tx_of (codes "20") [],
          refl,
          (refl, tt),
          refl,
          refl,
          omega arith,
        )
  | no q ↦ elim (ℕ_discrete m 30) [
    | yes r ↦
        subst (λ n. Served n hash) (sym r)
          (
            tx30 ∷ tx_of (codes "20") [] ∷ [],
            tx30,
            refl,
            (refl, (refl, tt)),
            refl,
            refl,
            omega arith,
          )
    | no r ↦ absurd (ground arith)
  ]
]

documented : IsDocumented (source false) chain
documented = record { older_page = λ n prev hash e. served (suc prev) hash e }

poll-Advance_example :
    (p' : Poller) × (seen : List Text) × (effects : List PollEffect) × (poll
        (source false)
        40
        poller
        []
      ≡ some (p', seen, effects))
    × Advance (source false) (transaction_dedup_key (λ _. pos 0) tx30) p'.last_processed_lt [] seen
unfolding polling
poll-Advance_example =
    poll-Advance (source false) chain 40 poller [] first_page tx30 documented (λ tx seen. refl) refl
      refl (refl, (refl, tt)) (refl, (refl, tt)) (omega arith)
