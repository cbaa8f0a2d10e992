-- ===== src/BlockchainSubscriber/Failures.antt =====
-- `HandleTransaction` of internal/usecase/blockchain_subscriber.go, and where failures go.
use pod_backend.Common.{
  suc, ◌+◌, ◌%◌, ◌^◌, ◌≡◌, refl, true, Option, none, some, ◌++◌, Text, codes, ℤ, pos, Outcome,
  Outcome-cases, inl, inr, ok, err, arith,
}
use pod_backend.BlockchainSubscriber.{
  Observability, classify_parse_error, record_parse_failure, record_dlq_store_attempt,
  record_dlq_stored, record_dlq_duplicate, record_dlq_store_failure, apply_dlq_store_result,
  record_store, DlqState, store_failure,
}
use pod_backend.BlockchainSubscriber.Retrying.{
  RetryConfig, RetryError, attempts_failed, context_ended, Routing, route_event_with_retry,
}
use pod_backend.DeadLetterQueue.{
  already_pending, StoreFailedTransactionResult, new_store_failed_transaction_result,
  FailedTransaction, store_failed_transaction, check_duplicate,
}
use pod_backend.DeadLetterQueue.Storing.{
  Accepted, check_duplicate-stored, store_failed_transaction-cases,
}
use pod_backend.DeadLetterTable.{DlqError, Table, Server}
use pod_backend.Entity.DeadLetter.{DlqErrorType, persistence_error}

-- Every attempt to store a transaction was counted once: as stored, as a duplicate or as a failure.
-- The counters wrap around.
abbrev pub Balanced : Observability → Type 0
Balanced o =
    o.dlq_store_attempts_total
    ≡ (o.dlq_stored_total + o.dlq_duplicate_total + o.dlq_store_failures_total) % 2 ^ 64

-- Storing a failed transaction keeps the counters of the queue balanced.
pub store_failure-Balanced :
    (db : Server) (q q' : Option DlqState) (o o' : Observability) (tx : FailedTransaction)
    (message : Text) (kind : DlqErrorType)
    → Balanced o
    → store_failure db q o tx message kind ≡ some (q', o')
    → Balanced o'
unfolding store_failure record_store record_dlq_store_attempt record_dlq_stored record_dlq_duplicate
    record_dlq_store_failure apply_dlq_store_result
store_failure-Balanced db q q' o o' tx message kind b h = ground arith

-- What a call leaves, and the error that it returns.
pub record Handled {ℓ} (S : Type ℓ) : Type ℓ where
  pub handled_state : S
  pub handled_queue : Option DlqState
  pub handled_observed : Observability
  pub returned : Outcome RetryError (Unit {0})

module _ (decimal : ℤ → Text) (cfg : RetryConfig) where
  -- The message of the error that the retry loop returns, given the decimal text of a number.
  unfoldable pub error_text : RetryError → Text
  error_text (attempts_failed message) =
      codes "all "
      ++ (decimal (pos cfg.max_retries) ++ (codes " retry attempts failed: " ++ message))
  error_text context_ended = codes "context canceled"

module _ (db : Server) (q : DlqState) (o : Observability) (tx : FailedTransaction) (message : Text)
    (kind : DlqErrorType) where
  after_store : Outcome DlqError StoreFailedTransactionResult → Observability
  after_store result = record_store db.now tx kind result (record_dlq_store_attempt db.now kind o)

  store_failure-stored :
      (t' : Table) (result : Outcome DlqError StoreFailedTransactionResult)
      → store_failed_transaction db q.table q.base tx message kind ≡ some (t', result)
      → store_failure db (some q) o tx message kind
        ≡ some (some (record q { table = t' }), after_store result)
  unfolding store_failure after_store
  store_failure-stored t' result p = rw (p, store_failure) refl

  stored_somewhere :
      Accepted db q.table q.base tx message kind
      → (t' : Table) × (r : StoreFailedTransactionResult) × (store_failed_transaction db q.table
            q.base tx message kind
          ≡ some (t', ok r))
  stored_somewhere a = elim (store_failed_transaction-cases db q.table q.base tx message kind a) [
    | inl (row, e, p) ↦ (
      record q.table { next_id = suc q.table.next_id },
      new_store_failed_transaction_result already_pending (some row),
      p,
    )
    | inr (e, p) ↦ (_, _, p)
  ]

module _ {ℓ} {S : Type ℓ} (decimal : ℤ → Text) (cfg : RetryConfig) (db : Server) where
  unfoldable pub handled :
      S → Outcome RetryError (Unit {0}) → Option DlqState × Observability → Handled S
  handled s returned (q, o) = record {
    handled_state = s;
    handled_queue = q;
    handled_observed = o;
    returned = returned;
  }

  unfoldable pub with_store :
      S
      → Outcome RetryError (Unit {0})
      → Option (Option DlqState × Observability)
      → Option (Handled S)
  unfolding handled
  with_store s returned none = none
  with_store s returned (some p) = some (handled s returned p)

  -- `HandleTransaction`, for a transaction that the parser has read; `none` is a panic. A failure to
  -- parse is no error of the call; one to persist is, and either goes to the queue.
  unfoldable pub handle_transaction :
      S
      → Option DlqState
      → Observability
      → FailedTransaction
      → Outcome Text (Routing S)
      → Option (Handled S)
  unfolding with_store handled
  handle_transaction s q o tx (err message) = elim (classify_parse_error message) [
    | none ↦ some (handled s (ok tt) (q, o))
    | some kind ↦
        with_store s (ok tt)
          (store_failure db q (record_parse_failure db.now tx message kind o) tx message kind)
  ]
  handle_transaction s q o tx (ok routing) =
      let run = route_event_with_retry routing cfg s o in
      elim run.result [
        | ok _ ↦ some (handled run.state (ok tt) (q, run.observed))
        | err e ↦
            with_store run.state (err e)
              (store_failure db q run.observed tx (error_text decimal cfg e) persistence_error)
      ]

  -- The failure of a call, if it is one that is to be kept: its message and its kind.
  abbrev pub failure_of :
      S → Observability → Outcome Text (Routing S) → Option (Text × DlqErrorType)
  failure_of s o (err message) = elim (classify_parse_error message) [
    | none ↦ none
    | some kind ↦ some (message, kind)
  ]
  failure_of s o (ok routing) = elim (route_event_with_retry routing cfg s o).result [
    | ok _ ↦ none
    | err e ↦ some (error_text decimal cfg e, persistence_error)
  ]

  -- No failed transaction is lost: where a call fails, to parse in a way that is to be observed or to
  -- persist after all retries, and nothing refuses its entry, the call leaves the transaction in the
  -- queue, where `CheckDuplicate` finds it.
  pub handle_transaction-keeps :
      (db' : Server) (s : S) (q : DlqState) (o : Observability) (tx : FailedTransaction)
      (parsed : Outcome Text (Routing S)) (message : Text) (kind : DlqErrorType)
      → failure_of s o parsed ≡ some (message, kind)
      → Accepted db q.table q.base tx message kind
      → db'.reachable ≡ true
      → (h : Handled S) × (t' : Table) × (handle_transaction s (some q) o tx parsed ≡ some h)
        × (h.handled_queue ≡ some (record q { table = t' }))
        × (check_duplicate db' t' tx.hash tx.lt ≡ ok true)
  unfolding handle_transaction with_store handled
  handle_transaction-keeps db' s q o tx (err m) message kind f a up =
      let o' = record_parse_failure db.now tx message kind o in
      let (t', r, p) = stored_somewhere db q o' tx message kind a in
      let k = store_failure-stored db q o' tx message kind t' (ok r) p in
      (
        handled s (ok tt)
            (some (record q { table = t' }), after_store db q o' tx message kind (ok r)),
        t',
        ground (arith, k),
        refl,
        check_duplicate-stored db db' q.table t' q.base tx message kind r a p up,
      )
  handle_transaction-keeps db' s q o tx (ok routing) message kind f a up =
      let run = route_event_with_retry routing cfg s o in
      elim (Outcome-cases run.result) [
        | inl (x, e) ↦ absurd (ground arith)
        | inr (x, e) ↦
            let o' = run.observed in
            let (t', r, p) = stored_somewhere db q o' tx message kind a in
            let k = store_failure-stored db q o' tx message kind t' (ok r) p in
            (
              handled run.state (err x)
                  (some (record q { table = t' }), after_store db q o' tx message kind (ok r)),
              t',
              ground (arith, k),
              refl,
              check_duplicate-stored db db' q.table t' q.base tx message kind r a p up,
            )
      ]
