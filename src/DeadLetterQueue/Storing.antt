-- ===== src/DeadLetterQueue/Storing.antt =====
-- What `StoreFailedTransaction` does to the table, and what it reports.
use pod_backend.Common.{
  suc, ◌≤◌, ◌≡◌, refl, true, false, ◌⊎◌, inl, inr, none, some, Option-cases, [], ◌∷◌, ◌++◌, Text, ℤ,
  pos, is_empty, text_eq, int_eq, ok, arith,
}
use pod_backend.Entity.DeadLetter.{
  DlqErrorType, DeadLetterEntry, validate, schedule_next_retry, after, backoff,
}
use pod_backend.DeadLetterTable.{
  Table, Server, is_open, is_open_for, find_row, inserted, insert_row, create,
  get_by_transaction_hash,
}
use pod_backend.DeadLetterTable.Rows.{insert_row-found, insert_row-new, find_row-append_last}
use pod_backend.DeadLetterQueue.{
  StoreFailedTransactionResult, FailedTransaction, queued, already_pending,
  new_store_failed_transaction_result, new_entry, report, entry_or, store_entry,
  store_failed_transaction, check_duplicate,
}

-- The entry of a call, its first retry scheduled.
unfoldable pub first_entry : Server → ℤ → FailedTransaction → Text → DlqErrorType → DeadLetterEntry
first_entry db base tx message error_type = record (new_entry tx message error_type) {
  next_retry_at = some (after db.now (backoff base 0));
}

module _ (db : Server) (t : Table) (base : ℤ) (tx : FailedTransaction) (message : Text)
    (error_type : DlqErrorType) where
  -- The row that the call would add.
  abbrev pub new_row : DeadLetterEntry
  new_row = inserted db.now t.next_id (validate (first_entry db base tx message error_type)).1

  -- A call that nothing refuses.
  pub record Accepted : Type 0 where
    pub answers : db.reachable ≡ true
    pub has_hash : is_empty tx.hash ≡ false
    pub has_lt : is_empty tx.lt ≡ false
    pub has_message : is_empty message ≡ false
    pub fits_row : db.fits new_row ≡ true
    pub started : 1 ≤ t.next_id

  -- The table after the call and its report, if the transaction has an open row, and if it has none.
  abbrev pub StoreCases : Type 0
  StoreCases =
      ((row : DeadLetterEntry) × (find_row (is_open_for tx.hash tx.lt) t.rows ≡ some row)
        × (store_failed_transaction db t base tx message error_type
            ≡ some (
              record t { next_id = suc t.next_id },
              ok (new_store_failed_transaction_result already_pending (some row)),
            )))
      ⊎ ((find_row (is_open_for tx.hash tx.lt) t.rows ≡ none)
          × (store_failed_transaction db t base tx message error_type
              ≡ some (
                record { rows = t.rows ++ new_row ∷ []; next_id = suc t.next_id },
                ok (
                    new_store_failed_transaction_result queued (
                      some (record (validate (first_entry db base tx message error_type)).1 {
                        id = pos t.next_id;
                        created_at = db.now;
                      }))),
              )))

  entry : DeadLetterEntry
  entry = (validate (first_entry db base tx message error_type)).1

  stored :
      store_failed_transaction db t base tx message error_type
      ≡ some (store_entry db t (first_entry db base tx message error_type) tx)
  unfolding store_failed_transaction schedule_next_retry new_entry first_entry
  stored = refl

  created :
      Accepted → create db t (first_entry db base tx message error_type) ≡ insert_row db t entry
  unfolding create validate first_entry new_entry entry
  created a = ground (arith, a.has_hash, a.has_lt, a.has_message)

  entry_is_new :
      Accepted
      → (entry.id ≡ pos 0)
        × (entry.transaction_hash ≡ tx.hash)
        × (entry.transaction_lt ≡ tx.lt)
        × (is_open entry.status ≡ true)
  unfolding entry validate first_entry new_entry
  entry_is_new a = ground (arith, a.has_hash, a.has_lt, a.has_message)

  -- A call that nothing refuses either finds an open row of the transaction, adds none, and reports
  -- that row as pending, or finds none, adds one with the next id, and reports it as queued.
  pub store_failed_transaction-cases : Accepted → StoreCases
  unfolding entry store_entry report get_by_transaction_hash entry_or
  store_failed_transaction-cases a =
      let (i, h, l, o) = entry_is_new a in
      elim (Option-cases (find_row (is_open_for tx.hash tx.lt) t.rows)) [
        | inr (row, e) ↦ inl (
          row,
          e,
          ground (
            arith,
            stored,
            created a,
            i,
            h,
            l,
            a.answers,
            insert_row-found db t entry row a.answers a.fits_row o (rw (h, l) e),
          ),
        )
        | inl e ↦ inr (
          e,
          ground (
            arith,
            stored,
            created a,
            i,
            h,
            l,
            a.answers,
            a.started,
            insert_row-new db t entry a.answers a.fits_row o (rw (h, l) e),
          ),
        )
      ]

  new_row-is_open_for : Accepted → is_open_for tx.hash tx.lt new_row ≡ true
  unfolding inserted validate first_entry new_entry
  new_row-is_open_for a = ground (arith, a.has_hash, a.has_lt, a.has_message)

  new_row-id : new_row.id ≡ pos t.next_id
  unfolding inserted
  new_row-id = refl

  -- What the call reports is the open row of the transaction, in the table after it.
  pub reported_row :
      (t' : Table) (r : StoreFailedTransactionResult)
      → Accepted
      → store_failed_transaction db t base tx message error_type ≡ some (t', ok r)
      → (row : DeadLetterEntry) × (find_row (is_open_for tx.hash tx.lt) t'.rows ≡ some row)
        × (r.entry_id ≡ row.id)
  unfolding new_store_failed_transaction_result
  reported_row t' r a s = elim (store_failed_transaction-cases a) [
    | inl (row, e, p) ↦ (row, ground arith, ground arith)
    | inr (e, p) ↦ (
      new_row,
      ground (
        arith,
        find_row-append_last (is_open_for tx.hash tx.lt) t.rows new_row e (new_row-is_open_for a),
      ),
      ground (arith, new_row-id),
    )
  ]

-- Two calls for one transaction, one after the other, that nothing refuses: the second one adds no
-- row, and reports the entry of the first as pending, whatever the two errors are.
pub store_again :
    (db db' : Server) (t t' : Table) (base : ℤ) (tx : FailedTransaction) (message message' : Text)
    (error_type error_type' : DlqErrorType) (r : StoreFailedTransactionResult)
    → Accepted db t base tx message error_type
    → store_failed_transaction db t base tx message error_type ≡ some (t', ok r)
    → Accepted db' t' base tx message' error_type'
    → (r' : StoreFailedTransactionResult) × (store_failed_transaction db' t' base tx message'
          error_type'
        ≡ some (record t' { next_id = suc t'.next_id }, ok r'))
      × (r'.outcome ≡ already_pending)
      × (r'.entry_id ≡ r.entry_id)
unfolding new_store_failed_transaction_result
store_again db db' t t' base tx message message' error_type error_type' r a s a' =
    let (row, found, same) = reported_row db t base tx message error_type t' r a s in
    elim (store_failed_transaction-cases db' t' base tx message' error_type' a') [
      | inl (row', found', p) ↦
          (new_store_failed_transaction_result already_pending (some row'), p, refl, ground arith)
      | inr (n, p) ↦ absurd (ground arith)
    ]

-- After a call that nothing refuses, `CheckDuplicate` finds the transaction, at any server that
-- answers.
pub check_duplicate-stored :
    (db db' : Server) (t t' : Table) (base : ℤ) (tx : FailedTransaction) (message : Text)
    (error_type : DlqErrorType) (r : StoreFailedTransactionResult)
    → Accepted db t base tx message error_type
    → store_failed_transaction db t base tx message error_type ≡ some (t', ok r)
    → db'.reachable ≡ true
    → check_duplicate db' t' tx.hash tx.lt ≡ ok true
unfolding check_duplicate get_by_transaction_hash
check_duplicate-stored db db' t t' base tx message error_type r a s h =
    let (row, found, same) = reported_row db t base tx message error_type t' r a s in ground arith
