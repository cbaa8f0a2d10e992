-- ===== src/Examples/Letters.antt =====
-- The queue of failed transactions at concrete inputs.
use pod_backend.Common.{
  ℕ, ◌≤◌, ◌≡◌, refl, Bool, true, false, some, List, [], ◌∷◌, codes, ℤ, pos, min, All, count_if, ok,
  arith, text_eq, int_eq, ℕ_discrete, ℤ_discrete, Text_discrete, mul_int64, add_int64, keep_if,
}
use pod_backend.Entity.DeadLetter.{
  parse_error, persistence_error, DeadLetterEntry, validate, can_retry, mark_retrying,
  schedule_next_retry, backoff,
}
use pod_backend.DeadLetterTable.{
  Table, Server, is_open_for, is_known, find_row, conflicts, inserted, insert_row, create,
  change_row, update, update_status, get_by_transaction_hash,
}
use pod_backend.DeadLetterTable.Queries.{is_older, is_ready, get_pending_for_retry}
use pod_backend.DeadLetterTable.Histories.{
  Statement, creates, increments, execute, execute_all, execute_all-WellFormed, empty_table,
  empty_table-WellFormed, one_open_entry,
}
use pod_backend.DeadLetterTable.Stats.{DlqStats, get_stats, is_exhausted}
use pod_backend.DeadLetterQueue.{
  StoreFailedTransactionResult, FailedTransaction, already_pending, queued,
  default_dlq_base_backoff, pending_dlq_resolution_notes, new_entry,
  new_store_failed_transaction_result, report, store_failed_transaction, mark_retry_attempt,
  mark_resolved, mark_failed, check_duplicate,
}
use pod_backend.DeadLetterQueue.Attempts.{attempts, Counts, attempts_run_out}
use pod_backend.DeadLetterQueue.Resolving.{check_duplicate-closed}
use pod_backend.DeadLetterQueue.Retries.{
  is_eligible, schedule_next_retry-delay, get_pending_for_retry-eligible,
}
use pod_backend.DeadLetterQueue.Storing.{
  Accepted, StoreCases, first_entry, store_failed_transaction-cases, store_again,
}
use pod_backend.Sorting.{sort_stable, IsSorted}

-- A server that takes every row.
abbrev pub server : ℕ → Server
server now = record { now = now; reachable = true; fits = λ _. true }

abbrev pub tx : FailedTransaction
tx = record { hash = codes "ab"; lt = codes "7"; serialized = some (codes "{}") }

abbrev pub base : ℤ
base = default_dlq_base_backoff

abbrev letter : DeadLetterEntry
letter = first_entry (server 10) base tx (codes "bad") parse_error

-- What a run of the queue computes through.
unfoldable queueing : Bool
unfolding first_entry new_entry pending_dlq_resolution_notes schedule_next_retry backoff mul_int64
    add_int64 validate can_retry mark_retrying find_row conflicts inserted insert_row create
    change_row update update_status get_by_transaction_hash get_pending_for_retry is_ready
    is_exhausted new_store_failed_transaction_result report store_failed_transaction
    mark_retry_attempt mark_resolved mark_failed check_duplicate execute execute_all get_stats
    count_if keep_if sort_stable attempts ℕ_discrete ℤ_discrete Text_discrete
queueing = true

-- Two inserts of one transaction, and a retry of the first.
abbrev statements : List (Server × Statement)
statements =
    (server 10, creates letter)
    ∷ (server 20, creates letter)
    ∷ (server 30, increments (pos 1) (pos 40))
    ∷ []

one_open_entry_example :
    count_if (is_open_for tx.hash tx.lt) (execute_all empty_table statements).rows ≤ 1
one_open_entry_example = one_open_entry statements tx.hash tx.lt

accepted : Accepted (server 10) empty_table base tx (codes "bad") parse_error
accepted = record {
  answers = refl;
  has_hash = refl;
  has_lt = refl;
  has_message = refl;
  fits_row = refl;
  started = omega arith;
}

abbrev one_letter : Table
one_letter = execute_all empty_table ((server 10, creates letter) ∷ [])

accepted_again : Accepted (server 20) one_letter base tx (codes "worse") persistence_error
unfolding queueing
accepted_again = record {
  answers = refl;
  has_hash = refl;
  has_lt = refl;
  has_message = refl;
  fits_row = refl;
  started = omega arith;
}

abbrev first_report : StoreFailedTransactionResult
first_report =
    new_store_failed_transaction_result queued
      (some (record letter { id = pos 1; created_at = 10 }))

stored_once :
    store_failed_transaction (server 10) empty_table base tx (codes "bad") parse_error
    ≡ some (one_letter, ok first_report)
unfolding queueing
stored_once = refl

store_failed_transaction-cases_example :
    StoreCases (server 10) empty_table base tx (codes "bad") parse_error
store_failed_transaction-cases_example =
    store_failed_transaction-cases (server 10) empty_table base tx (codes "bad") parse_error
      accepted

store_again_example :
    (r' : StoreFailedTransactionResult) × (store_failed_transaction
        (server 20)
        one_letter
        base
        tx
        (codes "worse")
        persistence_error
      ≡ some (record one_letter { next_id = 3 }, ok r'))
    × (r'.outcome ≡ already_pending)
    × (r'.entry_id ≡ pos 1)
unfolding queueing
store_again_example =
    store_again (server 10) (server 20) empty_table one_letter base tx (codes "bad") (codes "worse")
      parse_error persistence_error first_report accepted stored_once accepted_again

abbrev row : DeadLetterEntry
row = inserted 10 1 letter

found : find_row (is_open_for tx.hash tx.lt) one_letter.rows ≡ some row
unfolding queueing
found = refl

abbrev closed : Table
closed = (mark_resolved (server 40) one_letter (pos 1) (codes "done")).0

resolves : mark_resolved (server 40) one_letter (pos 1) (codes "done") ≡ (closed, ok tt)
unfolding queueing
resolves = refl

check_duplicate-closed_example : check_duplicate (server 50) closed tx.hash tx.lt ≡ ok false
unfolding inserted
check_duplicate-closed_example =
    check_duplicate-closed (server 40) (server 50) one_letter closed tx.hash tx.lt (codes "done")
      row false (execute_all-WellFormed empty_table _ empty_table-WellFormed) refl found resolves

-- The third retry comes twenty minutes later.
schedule_next_retry-delay_example :
    schedule_next_retry 10 base (record letter { retry_count = pos 2 })
    ≡ some (record letter { retry_count = pos 2; next_retry_at = some (pos 1200000000010) })
schedule_next_retry-delay_example =
    schedule_next_retry-delay 10 300000000000 2 (record letter { retry_count = pos 2 }) refl
      (omega arith) (omega arith)

abbrev three_times : List Server
three_times = server 20 ∷ server 30 ∷ server 40 ∷ []

row-Counts : Counts 0 3 row
unfolding queueing
row-Counts = record { counted = refl; allowed = refl; still_open = refl }

attempts_run_out_example :
    (t' : Table) × (e' : DeadLetterEntry) × (attempts base three_times one_letter row
      ≡ some (t', e'))
    × (can_retry e' ≡ false)
attempts_run_out_example =
    attempts_run_out base three_times one_letter 0 3 row (omega arith) row-Counts

abbrev late : ℕ
late = 300000000010

abbrev stats : DlqStats
stats = record {
  pending_count = 1;
  retrying_count = 0;
  resolved_count = 0;
  failed_count = 0;
  total_count = 1;
  parse_error_count = 1;
  persistence_error_count = 0;
  validation_error_count = 0;
  unknown_error_count = 0;
  ready_for_retry_count = 1;
  exhausted_retry_count = 0;
  oldest_pending = some 10;
  next_scheduled_retry_at = some (pos 300000000010);
}

stats_at : get_stats (server late) one_letter ≡ ok stats
unfolding queueing
stats_at = refl

ready_at : get_pending_for_retry (server late) one_letter (pos 5) ≡ ok (row ∷ [])
unfolding queueing
ready_at = refl

rows_in_check : All (λ e. is_known e.status) one_letter.rows
unfolding queueing
rows_in_check = (refl, tt)

get_pending_for_retry-eligible_example :
    All (is_eligible late) (row ∷ []) × IsSorted is_older (row ∷ []) × (1 ≡ min 5 1)
get_pending_for_retry-eligible_example =
    get_pending_for_retry-eligible (server late) one_letter 5 (row ∷ []) stats rows_in_check
      ready_at stats_at
