-- ===== src/DeadLetterQueue.antt =====
-- internal/usecase/dead_letter_queue.go: storing failed transactions, and their retries.
pub mod Retries
pub mod Attempts
pub mod Storing
pub mod Resolving
use pod_backend.Common.{
  ℕ, ◌*◌, Bool, true, false, Option, none, some, List, [], Text, codes, ℤ, pos, eqb_ℤ, Outcome, ok,
  err, if◌then◌else◌,
}
use pod_backend.Entity.DeadLetter.{
  DlqErrorType, parse_error, validation_error, persistence_error, unknown, DlqStatus, pending,
  resolved, failed, DeadLetterEntry, mark_retrying, schedule_next_retry,
}
use pod_backend.DeadLetterTable.{
  DlqError, Table, Server, create, get_by_id, get_by_transaction_hash, update, update_status,
}
use pod_backend.DeadLetterTable.Queries.{get_by_status, get_pending_for_retry}
use pod_backend.DeadLetterTable.Stats.{DlqStats, get_stats}

pub data DlqStoreOutcome : Type 0 where
  queued already_pending : DlqStoreOutcome

pub record StoreFailedTransactionResult : Type 0 where
  pub outcome : DlqStoreOutcome
  pub entry_id : ℤ
  pub result_status : DlqStatus
  pub result_error_type : DlqErrorType
  pub result_retry_count : ℤ
  pub result_max_retries : ℤ
  pub result_next_retry_at : Option ℤ
  pub result_resolution_notes : Text

-- What the use case reads of a transaction: its two keys, and what `serializeTransaction` makes of
-- it, if the encoder does not fail.
pub record FailedTransaction : Type 0 where
  pub hash : Text
  pub lt : Text
  pub serialized : Option Text

-- `defaultDLQBaseBackoff`, five minutes.
abbrev pub default_dlq_base_backoff : ℤ
default_dlq_base_backoff = pos 300000000000

abbrev pub default_dlq_max_retries : ℤ
default_dlq_max_retries = pos 3

-- `pendingDLQResolutionNotes`
unfoldable pub pending_dlq_resolution_notes : DlqErrorType → Text
pending_dlq_resolution_notes parse_error = codes "queued after parse failure"
pending_dlq_resolution_notes validation_error = codes "queued after validation failure"
pending_dlq_resolution_notes persistence_error = codes "queued after persistence retries exhausted"
pending_dlq_resolution_notes _ = codes "queued after unknown failure"

-- `newStoreFailedTransactionResult`
unfoldable pub new_store_failed_transaction_result :
    DlqStoreOutcome → Option DeadLetterEntry → StoreFailedTransactionResult
new_store_failed_transaction_result outcome none = record {
  outcome = outcome;
  entry_id = pos 0;
  result_status = pending;
  result_error_type = unknown;
  result_retry_count = pos 0;
  result_max_retries = pos 0;
  result_next_retry_at = none;
  result_resolution_notes = [];
}
new_store_failed_transaction_result outcome (some e) = record {
  outcome = outcome;
  entry_id = e.id;
  result_status = e.status;
  result_error_type = e.error_type;
  result_retry_count = e.retry_count;
  result_max_retries = e.max_retries;
  result_next_retry_at = e.next_retry_at;
  result_resolution_notes = e.resolution_notes;
}

raw_data_of : Option Text → Text
raw_data_of none = codes "{\"error\": \"serialization failed\"}"
raw_data_of (some text) = text

-- The entry that `StoreFailedTransaction` builds, before its first retry is scheduled.
unfoldable pub new_entry : FailedTransaction → Text → DlqErrorType → DeadLetterEntry
unfolding raw_data_of
new_entry tx message error_type = record {
  id = pos 0;
  transaction_hash = tx.hash;
  transaction_lt = tx.lt;
  raw_data = raw_data_of tx.serialized;
  error_message = message;
  error_type = error_type;
  retry_count = pos 0;
  max_retries = default_dlq_max_retries;
  created_at = 0;
  last_retry_at = none;
  next_retry_at = none;
  resolved_at = none;
  status = pending;
  resolution_notes = pending_dlq_resolution_notes error_type;
}

-- `existingEntry`, or the entry itself if there is none.
entry_or : Option DeadLetterEntry → DeadLetterEntry → DeadLetterEntry
entry_or none e = e
entry_or (some existing) e = existing

module _ (db : Server) where
  -- What is reported once the entry is created, or was there before.
  unfoldable pub report :
      Table → DeadLetterEntry → FailedTransaction → Outcome DlqError StoreFailedTransactionResult
  unfolding entry_or
  report t e tx =
      if eqb_ℤ e.id (pos 0)
      then elim (get_by_transaction_hash db t tx.hash tx.lt) [
        | err x ↦ err x
        | ok existing ↦
            ok (new_store_failed_transaction_result already_pending (some (entry_or existing e)))
      ]
      else ok (new_store_failed_transaction_result queued (some e))

  -- `dlqRepo.Create` and what follows it.
  store_entry :
      Table
      → DeadLetterEntry
      → FailedTransaction
      → Table × Outcome DlqError StoreFailedTransactionResult
  store_entry t e tx =
      let (t', e', created) = create db t e in
      (t', elim created [ err x ↦ err x | ok _ ↦ report t' e' tx ])

  -- `StoreFailedTransaction`; `none` is a panic.
  unfoldable pub store_failed_transaction :
      Table
      → ℤ
      → FailedTransaction
      → Text
      → DlqErrorType
      → Option (Table × Outcome DlqError StoreFailedTransactionResult)
  unfolding store_entry
  store_failed_transaction t base tx message error_type =
      elim (schedule_next_retry db.now base (new_entry tx message error_type)) [
        | none ↦ none
        | some e ↦ some (store_entry t e tx)
      ]

  -- `MarkRetryAttempt`: the entry changes in place, even if the update fails; `none` is a panic.
  unfoldable pub mark_retry_attempt :
      Table → ℤ → DeadLetterEntry → Option (Table × DeadLetterEntry × Outcome DlqError (Unit {0}))
  mark_retry_attempt t base e = elim (schedule_next_retry db.now base (mark_retrying db.now e)) [
    | none ↦ none
    | some e' ↦ let (t', result) = update db t e' in some (t', e', result)
  ]

  -- `MarkResolved` and `MarkFailed`
  unfoldable pub mark_resolved : Table → ℤ → Text → Table × Outcome DlqError (Unit {0})
  mark_resolved t id notes = update_status db t id resolved notes

  unfoldable pub mark_failed : Table → ℤ → Text → Table × Outcome DlqError (Unit {0})
  mark_failed t id notes = update_status db t id failed notes

  -- `CheckDuplicate`
  unfoldable pub check_duplicate : Table → Text → Text → Outcome DlqError Bool
  check_duplicate t hash lt = elim (get_by_transaction_hash db t hash lt) [
    | err x ↦ err x
    | ok none ↦ ok false
    | ok (some _) ↦ ok true
  ]

-- `GetObservability`
pub record DeadLetterQueueObservability : Type 0 where
  pub base_backoff : ℤ
  pub stats : DlqStats

unfoldable pub get_observability :
    Server → Table → ℤ → Outcome DlqError DeadLetterQueueObservability
get_observability db t base = elim (get_stats db t) [
  | err x ↦ err x
  | ok s ↦ ok (record { base_backoff = base; stats = s })
]
