-- ===== src/BlockchainSubscriber/Counters.antt =====
-- The counters of the queue through a whole call of `HandleTransaction`.
use pod_backend.Common.{
  ℕ, zero, suc, ◌≡◌, Option, some, Text, ℤ, Outcome, Outcome-cases, Option-cases, inl, inr, ok, err,
  arith,
}
use pod_backend.BlockchainSubscriber.{
  Observability, record_parse_failure, classify_parse_error, record_retry_attempt,
  record_retry_recovered, record_retry_exhausted, DlqState, store_failure,
}
use pod_backend.BlockchainSubscriber.Failures.{
  Balanced, Handled, store_failure-Balanced, handle_transaction, with_store, handled, error_text,
}
use pod_backend.BlockchainSubscriber.Retrying.{
  RetryConfig, RetryError, Routing, next_backoff, retry_from, route_event_with_retry,
}
use pod_backend.DeadLetterQueue.{FailedTransaction}
use pod_backend.DeadLetterTable.{Server}
use pod_backend.Entity.DeadLetter.{
  DlqErrorType, parse_error, persistence_error, validation_error, unknown, other_type,
}

record_parse_failure-Balanced :
    (now : ℕ) (tx : FailedTransaction) (message : Text) (kind : DlqErrorType) (o : Observability)
    → Balanced o
    → Balanced (record_parse_failure now tx message kind o)
unfolding record_parse_failure
record_parse_failure-Balanced now tx message parse_error o b = b
record_parse_failure-Balanced now tx message persistence_error o b = b
record_parse_failure-Balanced now tx message validation_error o b = b
record_parse_failure-Balanced now tx message unknown o b = b
record_parse_failure-Balanced now tx message (other_type t) o b = b

module _ {ℓ} {S : Type ℓ} (r : Routing S) (cfg : RetryConfig) where
  retry_from-Balanced :
      (left attempt : ℕ) (d : ℤ) (last : Text) (s : S) (o : Observability)
      → Balanced o
      → Balanced (retry_from r cfg left attempt d last s o).observed
  unfolding retry_from record_retry_attempt record_retry_recovered record_retry_exhausted
  retry_from-Balanced zero attempt d last s o b = b
  retry_from-Balanced (suc left) attempt d last s o b = elim (Outcome-cases (r.route s).1) [
    | inl (x, e) ↦ ground arith
    | inr (x, e) ↦ ground (
      arith,
      retry_from-Balanced left (suc attempt) (next_backoff cfg d) x (r.route s).0
          (record_retry_attempt r.now r.event last o) b,
    )
  ]

  route_event_with_retry-Balanced :
      (s : S) (o : Observability)
      → Balanced o
      → Balanced (route_event_with_retry r cfg s o).observed
  unfolding route_event_with_retry
  route_event_with_retry-Balanced s o b = elim (Outcome-cases (r.route s).1) [
    | inl (x, e) ↦ ground arith
    | inr (x, e) ↦
        ground
          (arith, retry_from-Balanced cfg.max_retries 1 cfg.initial_backoff x (r.route s).0 o b)
  ]

module _ {ℓ} {S : Type ℓ} (decimal : ℤ → Text) (cfg : RetryConfig) (db : Server) where
  with_store-Balanced :
      (s : S) (returned : Outcome RetryError (Unit {0})) (q : Option DlqState) (o : Observability)
      (tx : FailedTransaction) (message : Text) (kind : DlqErrorType) (h : Handled S)
      → Balanced o
      → with_store decimal cfg db s returned (store_failure db q o tx message kind) ≡ some h
      → Balanced h.handled_observed
  unfolding with_store handled
  with_store-Balanced s returned q o tx message kind h b e =
      elim (Option-cases (store_failure db q o tx message kind)) [
        | inl n ↦ absurd (ground arith)
        | inr ((q', o'), n) ↦
            ground (arith, store_failure-Balanced db q q' o o' tx message kind b n)
      ]

  -- A whole call keeps the counters of the queue balanced: each attempt to store a transaction has
  -- been counted once, as stored, as a duplicate or as a failure.
  pub handle_transaction-Balanced :
      (s : S) (q : Option DlqState) (o : Observability) (tx : FailedTransaction)
      (parsed : Outcome Text (Routing S)) (h : Handled S)
      → Balanced o
      → handle_transaction decimal cfg db s q o tx parsed ≡ some h
      → Balanced h.handled_observed
  unfolding handle_transaction handled
  handle_transaction-Balanced s q o tx (err m) h b e =
      elim (Option-cases (classify_parse_error m)) [
        | inl n ↦ ground arith
        | inr (kind, n) ↦
            let o' = record_parse_failure db.now tx m kind o in
            ground (
              arith,
              with_store-Balanced s (ok tt) q o' tx m kind h
                  (record_parse_failure-Balanced db.now tx m kind o b),
            )
      ]
  handle_transaction-Balanced s q o tx (ok routing) h b e =
      let run = route_event_with_retry routing cfg s o in
      let b' = route_event_with_retry-Balanced routing cfg s o b in
      elim (Outcome-cases run.result) [
        | inl (x, n) ↦ ground arith
        | inr (x, n) ↦ ground (
          arith,
          with_store-Balanced run.state (err x) q run.observed tx (error_text decimal cfg x)
              persistence_error h b',
        )
      ]
