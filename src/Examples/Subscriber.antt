-- ===== src/Examples/Subscriber.antt =====
-- The retry loop and the failures of the subscriber at concrete inputs.
use pod_backend.Common.{
  ℕ, suc, ◌≤◌, ◌≡◌, refl, true, false, none, some, [], Text, codes, ℤ, pos, mul_int64, ltb, leb_ℤ,
  eqb_ℤ, take, drop, length, All, ok, err, arith, if◌then◌else◌,
}
use pod_backend.BlockchainSubscriber.{Observability, DlqState}
use pod_backend.BlockchainSubscriber.Counters.{handle_transaction-Balanced}
use pod_backend.BlockchainSubscriber.Failures.{
  Balanced, Handled, handle_transaction, handle_transaction-keeps, error_text, failure_of,
}
use pod_backend.BlockchainSubscriber.Retrying.{
  RetryConfig, Multiplier, Routing, next_backoff, retry_from, route_event_with_retry,
}
use pod_backend.BlockchainSubscriber.Successes.{is_ok, route_event_with_retry-succeeds}
use pod_backend.DeadLetterQueue.{check_duplicate}
use pod_backend.DeadLetterQueue.Storing.{Accepted}
use pod_backend.DeadLetterTable.Histories.{empty_table}
use pod_backend.DeadLetterTable.{Table}
use pod_backend.Entity.DeadLetter.{persistence_error, other_type, other_status}
use pod_backend.Examples.Letters.{server, tx, base}

-- Doubling is exact for these delays.
abbrev two : Multiplier
two = record { above_one = true; scale = λ d. mul_int64 (pos 2) d }

-- Two retries.
abbrev config : RetryConfig
config = record {
  max_retries = 2;
  initial_backoff = pos 100000000;
  max_backoff = pos 2000000000;
  multiplier = two;
}

-- The handler fails until its state has reached the number.
abbrev until : ℕ → Routing ℕ
until n = record {
  event = record { event_type = codes "DrawNotify"; event_game_id = pos 7 };
  now = 5;
  route = λ s. (suc s, if ltb s n then err (codes "down") else ok tt);
  ends_in_wait = λ _. false;
  ends_after = λ _. false;
}

abbrev nothing_yet : Observability
nothing_yet = record {
  parse_failures_total = 0;
  validation_failures_total = 0;
  persistence_retry_attempts_total = 0;
  persistence_retry_recovered_total = 0;
  persistence_failures_exhausted = 0;
  dlq_store_attempts_total = 0;
  dlq_stored_total = 0;
  dlq_duplicate_total = 0;
  dlq_store_failures_total = 0;
  last_failure_type = other_type [];
  last_failure_error = [];
  last_failure_tx_hash = [];
  last_failure_tx_lt = [];
  last_failure_at = none;
  last_retry_outcome = [];
  last_retried_event_type = [];
  last_retried_game_id = pos 0;
  last_retry_attempt_at = none;
  last_exhausted_retry_at = none;
  last_dlq_error_type = other_type [];
  last_dlq_store_outcome = none;
  last_dlq_status = other_status [];
  last_dlq_resolution_notes = [];
  last_dlq_stored_tx_hash = [];
  last_dlq_stored_tx_lt = [];
  last_dlq_stored_at = none;
  last_dlq_store_failure = none;
  last_dlq_store_failure_tx_hash = [];
  last_dlq_store_failure_tx_lt = [];
  last_dlq_store_failure_at = none;
}

-- The third attempt succeeds.
route_event_with_retry-succeeds_example :
    (is_ok (route_event_with_retry (until 2) config 0 nothing_yet).result ≡ true)
    × (length (route_event_with_retry (until 2) config 0 nothing_yet).waits ≤ 2)
    × All
        (λ d. eqb_ℤ d config.initial_backoff)
        (take 1 (route_event_with_retry (until 2) config 0 nothing_yet).waits)
    × All
        (λ d. leb_ℤ d config.max_backoff)
        (drop 1 (route_event_with_retry (until 2) config 0 nothing_yet).waits)
route_event_with_retry-succeeds_example =
    route_event_with_retry-succeeds (until 2) config 0 nothing_yet (λ n. (refl, refl))

abbrev queue : DlqState
queue = record { table = empty_table; base = base }

-- Each number reads as "2" here.
abbrev printed : ℤ → Text
printed _ = codes "2"

abbrev message : Text
message = codes "all 2 retry attempts failed: down"

accepted : Accepted (server 10) empty_table base tx message persistence_error
accepted = record {
  answers = refl;
  has_hash = refl;
  has_lt = refl;
  has_message = refl;
  fits_row = refl;
  started = omega arith;
}

fails :
    failure_of printed config (server 10) 0 nothing_yet (ok (until 9))
    ≡ some (message, persistence_error)
unfolding route_event_with_retry retry_from next_backoff mul_int64 error_text
fails = refl

handle_transaction-keeps_example :
    (h : Handled ℕ) × (t' : Table) × (handle_transaction printed config
        (server 10)
        0
        (some queue)
        nothing_yet
        tx
        (ok (until 9))
      ≡ some h)
    × (h.handled_queue ≡ some (record queue { table = t' }))
    × (check_duplicate (server 20) t' tx.hash tx.lt ≡ ok true)
handle_transaction-keeps_example =
    handle_transaction-keeps printed config (server 10) (server 20) 0 queue nothing_yet tx
      (ok (until 9)) message persistence_error fails accepted refl

nothing_yet-Balanced : Balanced nothing_yet
nothing_yet-Balanced = refl

-- The same call, for its counters.
kept :
    (h : Handled ℕ) × (t' : Table) × (handle_transaction printed config
        (server 10)
        0
        (some queue)
        nothing_yet
        tx
        (ok (until 9))
      ≡ some h)
    × (h.handled_queue ≡ some (record queue { table = t' }))
    × (check_duplicate (server 20) t' tx.hash tx.lt ≡ ok true)
kept =
    handle_transaction-keeps printed config (server 10) (server 20) 0 queue nothing_yet tx
      (ok (until 9)) message persistence_error fails accepted refl

handle_transaction-Balanced_example : Balanced kept.0.handled_observed
handle_transaction-Balanced_example =
    handle_transaction-Balanced printed config (server 10) 0 (some queue) nothing_yet tx
      (ok (until 9)) kept.0 nothing_yet-Balanced kept.2
