-- ===== src/BlockchainSubscriber.antt =====
-- internal/usecase/blockchain_subscriber.go: what happens to a transaction that fails. The parser and
-- the handlers of the events are arguments; errors are their messages, and metrics are left out.
pub mod Retrying
pub mod Successes
pub mod Failures
pub mod Counters
use pod_backend.Common.{
  ℕ, suc, ◌+◌, ◌%◌, ◌^◌, Bool, true, false, ◌||◌, Option, none, some, List, [], ◌∷◌, ◌++◌, Text,
  codes, contains_text, ℤ, pos, leb_ℤ, ltb_ℤ, Outcome, ok, err, if◌then◌else◌,
}
use pod_backend.DeadLetterQueue.{
  DlqStoreOutcome, queued, already_pending, StoreFailedTransactionResult, FailedTransaction,
  store_failed_transaction,
}
use pod_backend.DeadLetterTable.{DlqError, Table, Server}
use pod_backend.Entity.DeadLetter.{
  DlqErrorType, parse_error, persistence_error, validation_error, unknown, other_type, DlqStatus,
  pending, other_status,
}

-- `BlockchainSubscriberObservability`. The counters are `uint64`; the empty text is the zero value.
pub record Observability : Type 0 where
  pub parse_failures_total : ℕ
  pub validation_failures_total : ℕ
  pub persistence_retry_attempts_total : ℕ
  pub persistence_retry_recovered_total : ℕ
  pub persistence_failures_exhausted : ℕ
  pub dlq_store_attempts_total : ℕ
  pub dlq_stored_total : ℕ
  pub dlq_duplicate_total : ℕ
  pub dlq_store_failures_total : ℕ
  pub last_failure_type : DlqErrorType
  pub last_failure_error : Text
  pub last_failure_tx_hash : Text
  pub last_failure_tx_lt : Text
  pub last_failure_at : Option ℕ
  pub last_retry_outcome : Text
  pub last_retried_event_type : Text
  pub last_retried_game_id : ℤ
  pub last_retry_attempt_at : Option ℕ
  pub last_exhausted_retry_at : Option ℕ
  pub last_dlq_error_type : DlqErrorType
  pub last_dlq_store_outcome : Option DlqStoreOutcome
  pub last_dlq_status : DlqStatus
  pub last_dlq_resolution_notes : Text
  pub last_dlq_stored_tx_hash : Text
  pub last_dlq_stored_tx_lt : Text
  pub last_dlq_stored_at : Option ℕ
  pub last_dlq_store_failure : Option DlqError
  pub last_dlq_store_failure_tx_hash : Text
  pub last_dlq_store_failure_tx_lt : Text
  pub last_dlq_store_failure_at : Option ℕ

-- `n++` on a `uint64`.
abbrev pub increment : ℕ → ℕ
increment n = (n + 1) % 2 ^ 64

-- What the retry loop reads of an event.
pub record RoutedEvent : Type 0 where
  pub event_type : Text
  pub event_game_id : ℤ

-- `classifyParseError`: none if the failure is not to be observed. The messages of wrapped errors
-- contain those of the errors that they wrap.
unfoldable pub classify_parse_error : Text → Option DlqErrorType
classify_parse_error message =
    if contains_text message (codes "transaction has no in_msg data")
    then none
    else if contains_text message (codes "transaction has no parsable game event messages")
    then none
    else if contains_text message (codes "unknown opcode")
    then none
    else if contains_text message (codes "event validation failed")
    then some validation_error
    else some parse_error

module _ (now : ℕ) where
  count_parse_failure : DlqErrorType → Observability → Observability
  count_parse_failure validation_error o = record o {
    validation_failures_total = increment o.validation_failures_total;
  }
  count_parse_failure (other_type _) o = o
  count_parse_failure _ o = record o { parse_failures_total = increment o.parse_failures_total }

  unfoldable pub record_parse_failure :
      FailedTransaction → Text → DlqErrorType → Observability → Observability
  unfolding count_parse_failure
  record_parse_failure tx message kind o = record (count_parse_failure kind o) {
    last_failure_type = kind;
    last_failure_error = message;
    last_failure_tx_hash = tx.hash;
    last_failure_tx_lt = tx.lt;
    last_failure_at = some now;
  }

  unfoldable pub record_retry_attempt : RoutedEvent → Text → Observability → Observability
  record_retry_attempt event message o = record o {
    persistence_retry_attempts_total = increment o.persistence_retry_attempts_total;
    last_failure_type = persistence_error;
    last_failure_error = message;
    last_retry_outcome = codes "retrying";
    last_retried_event_type = event.event_type;
    last_retried_game_id = event.event_game_id;
    last_retry_attempt_at = some now;
  }

  unfoldable pub record_retry_recovered : RoutedEvent → Observability → Observability
  record_retry_recovered event o = record o {
    persistence_retry_recovered_total = increment o.persistence_retry_recovered_total;
    last_retry_outcome = codes "recovered";
    last_retried_event_type = event.event_type;
    last_retried_game_id = event.event_game_id;
  }

  unfoldable pub record_retry_exhausted : RoutedEvent → Text → Observability → Observability
  record_retry_exhausted event message o = record o {
    persistence_failures_exhausted = increment o.persistence_failures_exhausted;
    last_failure_type = persistence_error;
    last_failure_error = message;
    last_retry_outcome = codes "exhausted";
    last_retried_event_type = event.event_type;
    last_retried_game_id = event.event_game_id;
    last_exhausted_retry_at = some now;
  }

  unfoldable pub record_dlq_store_attempt : DlqErrorType → Observability → Observability
  record_dlq_store_attempt kind o = record o {
    dlq_store_attempts_total = increment o.dlq_store_attempts_total;
    last_dlq_error_type = kind;
    last_dlq_store_outcome = none;
  }

  -- `applyDLQStoreResult`, for a result that is not nil.
  unfoldable pub apply_dlq_store_result :
      FailedTransaction
      → DlqErrorType
      → DlqStoreOutcome
      → StoreFailedTransactionResult
      → Observability
      → Observability
  apply_dlq_store_result tx kind outcome result o = record o {
    last_dlq_error_type = kind;
    last_dlq_store_outcome = some outcome;
    last_dlq_status = result.result_status;
    last_dlq_resolution_notes = result.result_resolution_notes;
    last_dlq_stored_tx_hash = tx.hash;
    last_dlq_stored_tx_lt = tx.lt;
    last_dlq_stored_at = some now;
  }

  unfoldable pub record_dlq_stored :
      FailedTransaction
      → DlqErrorType
      → StoreFailedTransactionResult
      → Observability
      → Observability
  record_dlq_stored tx kind result o =
      apply_dlq_store_result tx kind queued result
        (record o { dlq_stored_total = increment o.dlq_stored_total })

  unfoldable pub record_dlq_duplicate :
      FailedTransaction
      → DlqErrorType
      → StoreFailedTransactionResult
      → Observability
      → Observability
  record_dlq_duplicate tx kind result o =
      apply_dlq_store_result tx kind already_pending result
        (record o { dlq_duplicate_total = increment o.dlq_duplicate_total })

  unfoldable pub record_dlq_store_failure :
      FailedTransaction → DlqError → Observability → Observability
  record_dlq_store_failure tx e o = record o {
    dlq_store_failures_total = increment o.dlq_store_failures_total;
    last_dlq_store_failure = some e;
    last_dlq_store_failure_tx_hash = tx.hash;
    last_dlq_store_failure_tx_lt = tx.lt;
    last_dlq_store_failure_at = some now;
  }

-- The queue of failed transactions, if it is wired: its table and its base delay.
pub record DlqState : Type 0 where
  pub table : Table
  pub base : ℤ

record_store :
    ℕ
    → FailedTransaction
    → DlqErrorType
    → Outcome DlqError StoreFailedTransactionResult
    → Observability
    → Observability
record_store now tx kind (err e) o = record_dlq_store_failure now tx e o
record_store now tx kind (ok result) o = elim result.outcome [
  | already_pending ↦ record_dlq_duplicate now tx kind result o
  | queued ↦ record_dlq_stored now tx kind result o
]

-- `storeFailedTransaction`: `none` is a panic of the queue.
unfoldable pub store_failure :
    Server
    → Option DlqState
    → Observability
    → FailedTransaction
    → Text
    → DlqErrorType
    → Option (Option DlqState × Observability)
unfolding record_store
store_failure db none o tx message kind = some (none, o)
store_failure db (some q) o tx message kind =
    elim (store_failed_transaction db q.table q.base tx message kind) [
      | none ↦ none
      | some (t, result) ↦ some (
        some (record q { table = t }),
        record_store db.now tx kind result (record_dlq_store_attempt db.now kind o),
      )
    ]
