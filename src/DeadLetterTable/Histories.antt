-- ===== src/DeadLetterTable/Histories.antt =====
-- What the statements of the repository can make of an empty table.
use pod_backend.Common.{
  suc, ◌≤◌, ◌≡◌, refl, true, false, List, [], ◌∷◌, ◌++◌, Text, ℤ, pos, eqb_ℤ_iff, int_eq, text_eq,
  count_if, keep_if, Option-cases, inl, inr, arith,
}
use pod_backend.Entity.DeadLetter.{DlqStatus, DeadLetterEntry, validate}
use pod_backend.DeadLetterTable.{
  Table, Server, is_known, is_open_for, find_row, conflicts, inserted, takes_row, insert_row,
  create, has_id, lacks_id, replace_row, change_row, updated, update, with_status, update_status,
  incremented, increment_retry_count, delete_row,
}
use pod_backend.DeadLetterTable.Replacing.{
  OneOpen-replace, OneEach-replace, Below-replace, Known-replace, keep-WellFormed,
}
use pod_backend.DeadLetterTable.Rows.{find_row-holds}
use pod_backend.DeadLetterTable.Uniqueness.{
  count-le-one, WellFormed, OneOpen-append, OneEach-append, Below-append, Known-append, Below-later,
}

moved-WellFormed : (t : Table) → WellFormed t → WellFormed (record t { next_id = suc t.next_id })
moved-WellFormed t w = record {
  one_open = w.one_open;
  one_each = w.one_each;
  below = Below-later t.next_id t.rows w.below;
  known = w.known;
}

appended-WellFormed :
    (t : Table) (r : DeadLetterEntry)
    → r.id ≡ pos t.next_id
    → is_known r.status ≡ true
    → conflicts r t.rows ≡ false
    → WellFormed t
    → WellFormed (record { rows = t.rows ++ r ∷ []; next_id = suc t.next_id })
appended-WellFormed t r e k c w = record {
  one_open = OneOpen-append r t.rows c w.one_open;
  one_each = OneEach-append t.next_id r t.rows e w.below w.one_each;
  below = Below-append t.next_id r t.rows e w.below;
  known = Known-append r t.rows k w.known;
}

has_id-own : (id : ℤ) (old : DeadLetterEntry) → has_id id old ≡ true → old.id ≡ id
unfolding has_id
has_id-own id old h = (eqb_ℤ_iff old.id id).0 h

module _ (db : Server) where
  insert_row-WellFormed :
      (t : Table) (e : DeadLetterEntry) → WellFormed t → WellFormed (insert_row db t e).0
  unfolding insert_row inserted takes_row
  insert_row-WellFormed t e w =
      ground (arith, moved-WellFormed t w, appended-WellFormed t (inserted db.now t.next_id e) refl)

  create-WellFormed :
      (t : Table) (e : DeadLetterEntry) → WellFormed t → WellFormed (create db t e).0
  unfolding create
  create-WellFormed t e w = ground (arith, insert_row-WellFormed t (validate e).1 w)

  replaced-WellFormed :
      (t : Table) (id : ℤ) (new : DeadLetterEntry)
      → new.id ≡ id
      → is_known new.status ≡ true
      → conflicts new (keep_if (lacks_id id) t.rows) ≡ false
      → WellFormed t
      → WellFormed (record t { rows = replace_row id new t.rows })
  replaced-WellFormed t id new own k c w = record {
    one_open = OneOpen-replace id new t.rows w.one_each c w.one_open;
    one_each = OneEach-replace id new own t.rows w.one_each;
    below = Below-replace id new own t.next_id t.rows w.below;
    known = Known-replace id new t.rows k w.known;
  }

  change_row-WellFormed :
      (f : DeadLetterEntry → DeadLetterEntry) (t : Table) (id : ℤ)
      → ((e : DeadLetterEntry) → (f e).id ≡ e.id)
      → WellFormed t
      → WellFormed (change_row db f t id).0
  unfolding change_row takes_row
  change_row-WellFormed f t id own w = elim (Option-cases (find_row (has_id id) t.rows)) [
    | inl e ↦ ground arith
    | inr (old, e) ↦
        let h : old.id ≡ id = has_id-own id old (find_row-holds (has_id id) t.rows old e) in
        ground (arith, own old, replaced-WellFormed t id (f old))
  ]

  delete_row-WellFormed : (t : Table) (id : ℤ) → WellFormed t → WellFormed (delete_row db t id).0
  unfolding delete_row
  delete_row-WellFormed t id w = ground (arith, keep-WellFormed (lacks_id id) t.next_id t.rows w)

-- The statements of the repository that write.
pub data Statement : Type 0 where
  creates updates : DeadLetterEntry → Statement
  sets_status : ℤ → DlqStatus → Text → Statement
  increments : ℤ → ℤ → Statement
  deletes : ℤ → Statement

unfoldable pub execute : Server → Table → Statement → Table
execute db t (creates e) = (create db t e).0
execute db t (updates e) = (update db t e).0
execute db t (sets_status id status notes) = (update_status db t id status notes).0
execute db t (increments id next) = (increment_retry_count db t id next).0
execute db t (deletes id) = (delete_row db t id).0

unfoldable pub execute_all : Table → List (Server × Statement) → Table
execute_all t [] = t
execute_all t ((db, s) ∷ rest) = execute_all (execute db t s) rest

execute-WellFormed :
    (db : Server) (t : Table) (s : Statement) → WellFormed t → WellFormed (execute db t s)
unfolding execute update updated update_status with_status increment_retry_count incremented
execute-WellFormed db t (creates e) w = create-WellFormed db t e w
execute-WellFormed db t (updates e) w = change_row-WellFormed db (updated e) t e.id (λ _. refl) w
execute-WellFormed db t (sets_status id status notes) w =
    change_row-WellFormed db (with_status db status notes) t id (λ _. refl) w
execute-WellFormed db t (increments id next) w =
    change_row-WellFormed db (incremented db next) t id (λ _. refl) w
execute-WellFormed db t (deletes id) w = delete_row-WellFormed db t id w

pub execute_all-WellFormed :
    (t : Table) (calls : List (Server × Statement))
    → WellFormed t
    → WellFormed (execute_all t calls)
unfolding execute_all
execute_all-WellFormed t [] w = w
execute_all-WellFormed t ((db, s) ∷ rest) w =
    execute_all-WellFormed (execute db t s) rest (execute-WellFormed db t s w)

-- The table of the migration.
abbrev pub empty_table : Table
empty_table = record { rows = []; next_id = 1 }

pub empty_table-WellFormed : WellFormed empty_table
empty_table-WellFormed = record { one_open = tt; one_each = tt; below = tt; known = tt }

-- Whatever statements of the repository run on the new table, at whatever times and with whatever
-- failures of the server, a transaction has at most one row that is pending or retrying.
pub one_open_entry :
    (calls : List (Server × Statement)) (hash lt : Text)
    → count_if (is_open_for hash lt) (execute_all empty_table calls).rows ≤ 1
one_open_entry calls hash lt =
    count-le-one hash lt (execute_all empty_table calls).rows
      (execute_all-WellFormed empty_table calls empty_table-WellFormed).one_open
