-- ===== src/DeadLetterTable/Rows.antt =====
-- What lookups find in a list of rows.
use pod_backend.Common.{
  suc, ok, pos, text_eq, ◌≡◌, refl, Bool, true, Option, none, some, List, [], ◌∷◌, ◌++◌, arith,
}
use pod_backend.Entity.DeadLetter.{DeadLetterEntry}
use pod_backend.DeadLetterTable.{
  Table, Server, is_open, is_open_for, conflicts, takes_row, inserted, insert_row, find_row,
}

or_row : Option DeadLetterEntry → Option DeadLetterEntry → Option DeadLetterEntry
or_row none o = o
or_row (some e) o = some e

module _ (p : DeadLetterEntry → Bool) where
  find_row-append :
      (xs ys : List DeadLetterEntry)
      → find_row p (xs ++ ys) ≡ or_row (find_row p xs) (find_row p ys)
  unfolding find_row or_row
  find_row-append [] ys = refl
  find_row-append (x ∷ xs) ys = ground (arith, find_row-append xs ys)

  -- What is found stays found when a row is added.
  pub find_row-append_some :
      (xs ys : List DeadLetterEntry) (e : DeadLetterEntry)
      → find_row p xs ≡ some e
      → find_row p (xs ++ ys) ≡ some e
  unfolding or_row
  find_row-append_some xs ys e h = ground (arith, find_row-append xs ys)

  -- A row that is added is found, if none was before it.
  pub find_row-append_last :
      (xs : List DeadLetterEntry) (e : DeadLetterEntry)
      → find_row p xs ≡ none
      → p e ≡ true
      → find_row p (xs ++ e ∷ []) ≡ some e
  unfolding or_row find_row
  find_row-append_last xs e h k = ground (arith, find_row-append xs (e ∷ []))

  pub find_row-holds :
      (xs : List DeadLetterEntry) (e : DeadLetterEntry) → find_row p xs ≡ some e → p e ≡ true
  unfolding find_row
  find_row-holds [] e h = cc
  find_row-holds (x ∷ xs) e h = ground (arith, find_row-holds xs e)

module _ (db : Server) (t : Table) (e : DeadLetterEntry) where
  -- An open entry that the server takes is left out if its transaction has an open row.
  pub insert_row-found :
      (row : DeadLetterEntry)
      → db.reachable ≡ true
      → db.fits (inserted db.now t.next_id e) ≡ true
      → is_open e.status ≡ true
      → find_row (is_open_for e.transaction_hash e.transaction_lt) t.rows ≡ some row
      → insert_row db t e ≡ (record t { next_id = suc t.next_id }, e, ok tt)
  unfolding insert_row takes_row conflicts inserted
  insert_row-found row r f o h = ground arith

  -- It becomes the last row, with the next id, if there is none.
  pub insert_row-new :
      db.reachable ≡ true
      → db.fits (inserted db.now t.next_id e) ≡ true
      → is_open e.status ≡ true
      → find_row (is_open_for e.transaction_hash e.transaction_lt) t.rows ≡ none
      → insert_row db t e ≡ (
        record { rows = t.rows ++ inserted db.now t.next_id e ∷ []; next_id = suc t.next_id },
        record e { id = pos t.next_id; created_at = db.now },
        ok tt,
      )
  unfolding insert_row takes_row conflicts inserted
  insert_row-new r f o h = ground arith
