-- ===== src/DeadLetterTable.antt =====
-- internal/repository/postgres/dead_letter_queue_repository.go over the table of
-- migrations/000011_create_dead_letter_queue.up.sql. The rows are a list; each statement of the
-- repository is a function of it, with the partial unique index and the check of the status.
pub mod Queries
pub mod Rows
pub mod Uniqueness
pub mod Histories
pub mod Replacing
pub mod Closing
pub mod Stats
use pod_backend.Common.{
  ℕ, suc, ◌+◌, Bool, true, false, ◌&&◌, ◌||◌, not, Option, none, some, List, [], ◌∷◌, ◌++◌, Text, ℤ,
  pos, negsuc, eqb_ℤ, leb_ℤ, ltb_ℤ, ltb, leb, eqb, int_eq, text_eq, length, take, drop, count_if,
  keep_if, Outcome, ok, err, add_int64, if◌then◌else◌,
}
use pod_backend.Entity.DeadLetter.{
  DlqErrorType, parse_error, persistence_error, validation_error, unknown, DlqStatus, pending,
  retrying, resolved, failed, other_status, DeadLetterEntry, validate, is_resolved, is_failed,
}
use pod_backend.Sorting.{sort_stable}
use Prim.Native.String.{String}

pub data DlqError : Type 0 where
  validation_failed : String → DlqError
  execute_query : DlqError
  entry_not_found : ℤ → DlqError

pub record Table : Type 0 where
  pub rows : List DeadLetterEntry
  pub next_id : ℕ

-- The server at the time of a call: whether it answers, and which rows its column types take.
pub record Server : Type 0 where
  pub now : ℕ
  pub reachable : Bool
  pub fits : DeadLetterEntry → Bool

-- `status IN ('pending', 'retrying')`
abbrev pub is_open : DlqStatus → Bool
is_open pending = true
is_open retrying = true
is_open _ = false

-- `dlq_status_check`
abbrev pub is_known : DlqStatus → Bool
is_known (other_status _) = false
is_known _ = true

abbrev pub same_transaction : Text → Text → DeadLetterEntry → Bool
same_transaction hash lt e = eqb hash e.transaction_hash && eqb lt e.transaction_lt

-- The rows of the partial index with this key.
abbrev pub is_open_for : Text → Text → DeadLetterEntry → Bool
is_open_for hash lt e = is_open e.status && same_transaction hash lt e

unfoldable pub find_row : (DeadLetterEntry → Bool) → List DeadLetterEntry → Option DeadLetterEntry
find_row p [] = none
find_row p (e ∷ es) = if p e then some e else find_row p es

abbrev pub is_some : Option DeadLetterEntry → Bool
is_some none = false
is_some (some e) = true

-- Whether the index refuses a row next to these.
unfoldable pub conflicts : DeadLetterEntry → List DeadLetterEntry → Bool
conflicts e rows =
    is_open e.status && is_some (find_row (is_open_for e.transaction_hash e.transaction_lt) rows)

-- The columns that an insert does not name have their defaults.
unfoldable pub inserted : ℕ → ℕ → DeadLetterEntry → DeadLetterEntry
inserted now id e = record e {
  id = pos id;
  created_at = now;
  last_retry_at = none;
  resolved_at = none;
}

has_id : ℤ → DeadLetterEntry → Bool
has_id id e = eqb_ℤ e.id id

pub lacks_id : ℤ → DeadLetterEntry → Bool
lacks_id id e = not (eqb_ℤ e.id id)

pub replace_row : ℤ → DeadLetterEntry → List DeadLetterEntry → List DeadLetterEntry
replace_row id new [] = []
replace_row id new (e ∷ es) = (if eqb_ℤ e.id id then new else e) ∷ replace_row id new es

-- The columns that `Update` writes.
updated : DeadLetterEntry → DeadLetterEntry → DeadLetterEntry
updated e old = record old {
  error_message = e.error_message;
  error_type = e.error_type;
  retry_count = e.retry_count;
  last_retry_at = e.last_retry_at;
  next_retry_at = e.next_retry_at;
  resolved_at = e.resolved_at;
  status = e.status;
  resolution_notes = e.resolution_notes;
}

module _ (db : Server) where
  takes_row : DeadLetterEntry → Bool
  takes_row e = db.fits e && is_known e.status

  -- `INSERT ... ON CONFLICT ... DO NOTHING RETURNING`. The sequence of the ids moves on in any case;
  -- with no row returned the entry is left as it is.
  unfoldable pub insert_row :
      Table → DeadLetterEntry → Table × DeadLetterEntry × Outcome DlqError (Unit {0})
  unfolding takes_row
  insert_row t e =
      let row = inserted db.now t.next_id e in
      let moved = record t { next_id = suc t.next_id } in
      if not db.reachable
      then (t, e, err execute_query)
      else if not (takes_row row)
      then (moved, e, err execute_query)
      else if conflicts row t.rows
      then (moved, e, ok tt)
      else (
        record moved { rows = t.rows ++ row ∷ [] },
        record e { id = pos t.next_id; created_at = db.now },
        ok tt,
      )

  -- `Create`
  unfoldable pub create :
      Table → DeadLetterEntry → Table × DeadLetterEntry × Outcome DlqError (Unit {0})
  create t e =
      let (message, e') = validate e in
      elim message [ some m ↦ (t, e', err (validation_failed m)) | none ↦ insert_row t e' ]

  -- An `UPDATE ... WHERE id = ...`: the row that changes must fit, and not meet another in the index.
  unfoldable pub change_row :
      (DeadLetterEntry → DeadLetterEntry) → Table → ℤ → Table × Outcome DlqError (Unit {0})
  unfolding has_id lacks_id replace_row takes_row
  change_row f t id =
      if not db.reachable then (t, err execute_query) else elim (find_row (has_id id) t.rows) [
        | none ↦ (t, err (entry_not_found id))
        | some old ↦
            if not (takes_row (f old)) || conflicts (f old) (keep_if (lacks_id id) t.rows)
            then (t, err execute_query)
            else (record t { rows = replace_row id (f old) t.rows }, ok tt)
      ]

  -- `Update`
  unfoldable pub update : Table → DeadLetterEntry → Table × Outcome DlqError (Unit {0})
  unfolding updated
  update t e = change_row (updated e) t e.id

  -- `UpdateStatus`
  with_status : DlqStatus → Text → DeadLetterEntry → DeadLetterEntry
  with_status status notes old = record old {
    status = status;
    resolution_notes = notes;
    resolved_at = if is_resolved status || is_failed status then some db.now else old.resolved_at;
  }

  unfoldable pub update_status : Table → ℤ → DlqStatus → Text → Table × Outcome DlqError (Unit {0})
  unfolding with_status
  update_status t id status notes = change_row (with_status status notes) t id

  -- `IncrementRetryCount`
  incremented : ℤ → DeadLetterEntry → DeadLetterEntry
  incremented next old = record old {
    retry_count = add_int64 old.retry_count (pos 1);
    last_retry_at = some db.now;
    next_retry_at = some next;
    status = retrying;
  }

  unfoldable pub increment_retry_count : Table → ℤ → ℤ → Table × Outcome DlqError (Unit {0})
  unfolding incremented
  increment_retry_count t id next = change_row (incremented next) t id

  -- `Delete`
  unfoldable pub delete_row : Table → ℤ → Table × Outcome DlqError (Unit {0})
  unfolding has_id lacks_id
  delete_row t id =
      if not db.reachable then (t, err execute_query) else elim (find_row (has_id id) t.rows) [
        | none ↦ (t, err (entry_not_found id))
        | some _ ↦ (record t { rows = keep_if (lacks_id id) t.rows }, ok tt)
      ]

  -- `GetByID` and `GetByTransactionHash`: no row is no error.
  unfoldable pub get_by_id : Table → ℤ → Outcome DlqError (Option DeadLetterEntry)
  unfolding has_id
  get_by_id t id = if db.reachable then ok (find_row (has_id id) t.rows) else err execute_query

  unfoldable pub get_by_transaction_hash :
      Table → Text → Text → Outcome DlqError (Option DeadLetterEntry)
  get_by_transaction_hash t hash lt =
      if db.reachable then ok (find_row (is_open_for hash lt) t.rows) else err execute_query
