-- ===== src/DeadLetterTable/Stats.antt =====
-- `GetStats` of internal/repository/postgres/dead_letter_queue_repository.go.
use pod_backend.Common.{
  ℕ, All, ◌+◌, ◌≤◌, ◌≡◌, Bool, true, false, ◌&&◌, Option, none, some, List, [], ◌∷◌, ℤ, leb_ℤ,
  ltb_ℤ, ltb, length, count_if, Outcome, ok, err, arith, if◌then◌else◌,
}
use pod_backend.Entity.DeadLetter.{
  parse_error, persistence_error, validation_error, unknown, pending, retrying, resolved, failed,
  DeadLetterEntry,
}
use pod_backend.DeadLetterTable.{DlqError, execute_query, Table, Server, is_open, is_known}
use pod_backend.DeadLetterTable.Queries.{is_ready, has_status}

pub record DlqStats : Type 0 where
  pub pending_count : ℕ
  pub retrying_count : ℕ
  pub resolved_count : ℕ
  pub failed_count : ℕ
  pub total_count : ℕ
  pub parse_error_count : ℕ
  pub persistence_error_count : ℕ
  pub validation_error_count : ℕ
  pub unknown_error_count : ℕ
  pub ready_for_retry_count : ℕ
  pub exhausted_retry_count : ℕ
  pub oldest_pending : Option ℕ
  pub next_scheduled_retry_at : Option ℤ

abbrev pub is_parse_error : DeadLetterEntry → Bool
is_parse_error e = elim e.error_type [ parse_error ↦ true | _ ↦ false ]

abbrev pub is_persistence_error : DeadLetterEntry → Bool
is_persistence_error e = elim e.error_type [ persistence_error ↦ true | _ ↦ false ]

abbrev pub is_validation_error : DeadLetterEntry → Bool
is_validation_error e = elim e.error_type [ validation_error ↦ true | _ ↦ false ]

abbrev pub is_unknown_error : DeadLetterEntry → Bool
is_unknown_error e = elim e.error_type [ unknown ↦ true | _ ↦ false ]

-- `retry_count >= max_retries` among the open rows.
unfoldable pub is_exhausted : DeadLetterEntry → Bool
is_exhausted e = is_open e.status && leb_ℤ e.max_retries e.retry_count

-- `MIN` leaves out what is null, and is null if nothing is left.
min_of {ℓ} : {A : Type ℓ} → (A → A → Bool) → Option A → Option A → Option A
min_of less none o = o
min_of less (some a) none = some a
min_of less (some a) (some b) = if less b a then some b else some a

minimum_of {ℓ} :
    {A : Type ℓ} → (A → A → Bool) → (DeadLetterEntry → Option A) → List DeadLetterEntry → Option A
unfolding min_of
minimum_of less f [] = none
minimum_of less f (e ∷ es) = min_of less (f e) (minimum_of less f es)

open_created_at : DeadLetterEntry → Option ℕ
open_created_at e = if is_open e.status then some e.created_at else none

open_next_retry_at : DeadLetterEntry → Option ℤ
open_next_retry_at e =
    if is_open e.status && ltb_ℤ e.retry_count e.max_retries then e.next_retry_at else none

unfoldable pub get_stats : Server → Table → Outcome DlqError DlqStats
unfolding minimum_of open_created_at open_next_retry_at
get_stats db t =
    if db.reachable
    then ok (record {
      pending_count = count_if (has_status pending) t.rows;
      retrying_count = count_if (has_status retrying) t.rows;
      resolved_count = count_if (has_status resolved) t.rows;
      failed_count = count_if (has_status failed) t.rows;
      total_count = length t.rows;
      parse_error_count = count_if is_parse_error t.rows;
      persistence_error_count = count_if is_persistence_error t.rows;
      validation_error_count = count_if is_validation_error t.rows;
      unknown_error_count = count_if is_unknown_error t.rows;
      ready_for_retry_count = count_if (is_ready db.now) t.rows;
      exhausted_retry_count = count_if is_exhausted t.rows;
      oldest_pending = minimum_of ltb open_created_at t.rows;
      next_scheduled_retry_at = minimum_of ltb_ℤ open_next_retry_at t.rows;
    })
    else err execute_query

statuses_add_up :
    (rows : List DeadLetterEntry)
    → All (λ e. is_known e.status) rows
    → count_if (has_status pending) rows
        + count_if (has_status retrying) rows
        + count_if (has_status resolved) rows
        + count_if (has_status failed) rows
      ≡ length rows
unfolding count_if
statuses_add_up [] h = omega arith
statuses_add_up (e ∷ es) h = ground (arith, statuses_add_up es h.1)

ready_or_exhausted :
    (now : ℕ) (rows : List DeadLetterEntry)
    → count_if (is_ready now) rows + count_if is_exhausted rows
      ≤ count_if (has_status pending) rows + count_if (has_status retrying) rows
unfolding count_if is_ready is_exhausted
ready_or_exhausted now [] = omega arith
ready_or_exhausted now (e ∷ es) = ground (arith, ready_or_exhausted now es)

-- Where every row meets the check of the status, the counts that `GetStats` returns by status add up
-- to the total, and those of the rows that are ready and of those that are exhausted stay within the
-- open ones.
pub get_stats-consistent :
    (db : Server) (t : Table) (s : DlqStats)
    → All (λ e. is_known e.status) t.rows
    → get_stats db t ≡ ok s
    → (s.pending_count + s.retrying_count + s.resolved_count + s.failed_count ≡ s.total_count)
      × (s.ready_for_retry_count + s.exhausted_retry_count ≤ s.pending_count + s.retrying_count)
unfolding get_stats
get_stats-consistent db t s h e =
    ground (arith, statuses_add_up t.rows h, ready_or_exhausted db.now t.rows)
