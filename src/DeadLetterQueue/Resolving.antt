-- ===== src/DeadLetterQueue/Resolving.antt =====
-- Resolving an entry, or giving it up, frees its transaction.
use pod_backend.Common.{
  ◌≡◌, refl, Bool, true, false, some, Text, text_eq, int_eq, ok, arith, if◌then◌else◌,
}
use pod_backend.Entity.DeadLetter.{resolved, failed, DeadLetterEntry}
use pod_backend.DeadLetterTable.{Table, Server, is_open_for, find_row, get_by_transaction_hash}
use pod_backend.DeadLetterTable.Closing.{update_status-closed}
use pod_backend.DeadLetterTable.Uniqueness.{WellFormed}
use pod_backend.DeadLetterQueue.{mark_resolved, mark_failed, check_duplicate}

-- In a well-formed table, once `MarkResolved` or `MarkFailed` has succeeded on the open row of a
-- transaction, `CheckDuplicate` no longer finds the transaction.
pub check_duplicate-closed :
    (db db' : Server) (t t' : Table) (hash lt notes : Text) (row : DeadLetterEntry)
    (gives_up : Bool)
    → WellFormed t
    → db'.reachable ≡ true
    → find_row (is_open_for hash lt) t.rows ≡ some row
    → (if gives_up then mark_failed db t row.id notes else mark_resolved db t row.id notes)
      ≡ (t', ok tt)
    → check_duplicate db' t' hash lt ≡ ok false
unfolding mark_resolved mark_failed check_duplicate get_by_transaction_hash
check_duplicate-closed db db' t t' hash lt notes row true w h found p =
    ground (arith, update_status-closed db t t' hash lt notes row failed w found refl p)
check_duplicate-closed db db' t t' hash lt notes row false w h found p =
    ground (arith, update_status-closed db t t' hash lt notes row resolved w found refl p)
