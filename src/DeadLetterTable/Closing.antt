-- ===== src/DeadLetterTable/Closing.antt =====
-- A row that is no longer open leaves the index.
use pod_backend.Common.{
  ◌≡◌, refl, subst, true, false, inl, inr, none, some, Option-cases, Bool-cases, List, [], ◌∷◌,
  Text, ℤ, text_eq, int_eq, ok, arith,
}
use pod_backend.Entity.DeadLetter.{DlqStatus, DeadLetterEntry}
use pod_backend.DeadLetterTable.{
  Table, Server, is_open, is_open_for, find_row, conflicts, has_id, replace_row, change_row,
  with_status, update_status,
}
use pod_backend.DeadLetterTable.Replacing.{replace_row-absent}
use pod_backend.DeadLetterTable.Uniqueness.{WellFormed, OneOpen, OneEach, Lacks}

none_of_conflicts :
    (hash lt : Text) (x : DeadLetterEntry) (xs : List DeadLetterEntry)
    → is_open_for hash lt x ≡ true
    → conflicts x xs ≡ false
    → find_row (is_open_for hash lt) xs ≡ none
unfolding conflicts
none_of_conflicts hash lt x xs o c = ground arith

find_row-closed :
    (hash lt : Text) (id : ℤ) (new row : DeadLetterEntry) (xs : List DeadLetterEntry)
    → is_open new.status ≡ false
    → OneOpen xs
    → OneEach xs
    → find_row (is_open_for hash lt) xs ≡ some row
    → row.id ≡ id
    → find_row (is_open_for hash lt) (replace_row id new xs) ≡ none
unfolding find_row replace_row
find_row-closed hash lt id new row [] off o u h e = cc
find_row-closed hash lt id new row (x ∷ xs) off o u h e =
    elim (Bool-cases (is_open_for hash lt x)) [
      | inl k ↦
          let same : x.id ≡ id = ground arith in
          let l = subst (λ j. Lacks j xs) same u.0 in
          ground (arith, replace_row-absent id new xs l, none_of_conflicts hash lt x xs k o.0)
      | inr k ↦ ground (arith, find_row-closed hash lt id new row xs off o.1 u.1)
    ]

pub update_status-closed :
    (db : Server) (t t' : Table) (hash lt notes : Text) (row : DeadLetterEntry) (status : DlqStatus)
    → WellFormed t
    → find_row (is_open_for hash lt) t.rows ≡ some row
    → is_open status ≡ false
    → update_status db t row.id status notes ≡ (t', ok tt)
    → find_row (is_open_for hash lt) t'.rows ≡ none
unfolding update_status change_row with_status
update_status-closed db t t' hash lt notes row status w found off h =
    elim (Option-cases (find_row (has_id row.id) t.rows)) [
      | inl e ↦ absurd (ground arith)
      | inr (old, e) ↦ ground (
        arith,
        find_row-closed hash lt row.id (with_status db status notes old) row t.rows off w.one_open
            w.one_each found refl,
      )
    ]
