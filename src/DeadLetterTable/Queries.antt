-- ===== src/DeadLetterTable/Queries.antt =====
-- The queries of internal/repository/postgres/dead_letter_queue_repository.go that select rows by their
-- status.
use pod_backend.Common.{
  ℕ, Bool, true, false, ◌&&◌, Option, none, some, List, ℤ, pos, negsuc, leb_ℤ, ltb_ℤ, ltb, eqb,
  int_eq, text_eq, take, drop, count_if, keep_if, Outcome, ok, err, if◌then◌else◌,
}
use pod_backend.Entity.DeadLetter.{
  DlqStatus, pending, retrying, resolved, failed, other_status, DeadLetterEntry,
}
use pod_backend.Sorting.{sort_stable}
use pod_backend.DeadLetterTable.{DlqError, execute_query, Table, Server, is_open}

-- `next_retry_at IS NULL OR next_retry_at <= NOW()`
abbrev pub is_due : ℕ → Option ℤ → Bool
is_due now none = true
is_due now (some next) = leb_ℤ next (pos now)

-- The condition of `GetPendingForRetry`.
unfoldable pub is_ready : ℕ → DeadLetterEntry → Bool
is_ready now e = is_open e.status && is_due now e.next_retry_at && ltb_ℤ e.retry_count e.max_retries

abbrev pub is_older : DeadLetterEntry → DeadLetterEntry → Bool
is_older a b = ltb a.created_at b.created_at

abbrev pub is_newer : DeadLetterEntry → DeadLetterEntry → Bool
is_newer a b = ltb b.created_at a.created_at

abbrev pub eqb_status : DlqStatus → DlqStatus → Bool
eqb_status pending pending = true
eqb_status retrying retrying = true
eqb_status resolved resolved = true
eqb_status failed failed = true
eqb_status (other_status a) (other_status b) = eqb a b
eqb_status _ _ = false

abbrev pub has_status : DlqStatus → DeadLetterEntry → Bool
has_status status e = eqb_status e.status status

module _ (db : Server) where
  -- `GetPendingForRetry`. A negative limit converts to one that the server refuses.
  unfoldable pub get_pending_for_retry : Table → ℤ → Outcome DlqError (List DeadLetterEntry)
  get_pending_for_retry t (negsuc _) = err execute_query
  get_pending_for_retry t (pos limit) =
      if db.reachable
      then ok (take limit (sort_stable is_older (keep_if (is_ready db.now) t.rows)))
      else err execute_query

  -- `GetByStatus`
  unfoldable pub get_by_status : Table → DlqStatus → ℤ → ℤ → Outcome DlqError (List DeadLetterEntry)
  get_by_status t status (pos limit) (pos offset) =
      if db.reachable
      then ok (take limit (drop offset (sort_stable is_newer (keep_if (has_status status) t.rows))))
      else err execute_query
  get_by_status t status _ _ = err execute_query

  -- `CountByStatus`
  unfoldable pub count_by_status : Table → DlqStatus → Outcome DlqError ℕ
  count_by_status t status =
      if db.reachable then ok (count_if (has_status status) t.rows) else err execute_query
