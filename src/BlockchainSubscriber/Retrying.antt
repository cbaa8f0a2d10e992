-- ===== src/BlockchainSubscriber/Retrying.antt =====
-- The retry loop of internal/usecase/blockchain_subscriber.go.
use pod_backend.Common.{
  ℕ, zero, suc, Bool, true, false, List, [], ◌∷◌, Text, ℤ, pos, leb_ℤ, ltb_ℤ, pos_part, Outcome, ok,
  err, if◌then◌else◌,
}
use pod_backend.BlockchainSubscriber.{
  Observability, RoutedEvent, record_retry_attempt, record_retry_recovered, record_retry_exhausted,
}

-- A `float64` factor: whether it is above 1.0, and its product with a duration.
pub record Multiplier : Type 0 where
  pub above_one : Bool
  pub scale : ℤ → ℤ

-- What a caller gives `SetRetryConfig`.
pub record GivenRetryConfig : Type 0 where
  pub max_retries : ℤ
  pub initial_backoff : ℤ
  pub max_backoff : ℤ
  pub multiplier : Multiplier

-- The field `retryConfig` of the use case. Only the constructors, which take the defaults, and
-- `SetRetryConfig` write it, and neither leaves a number of retries below 0 there.
pub record RetryConfig : Type 0 where
  pub max_retries : ℕ
  pub initial_backoff : ℤ
  pub max_backoff : ℤ
  pub multiplier : Multiplier

-- `SetRetryConfig`, given the factor 2.0: three retries, 100 milliseconds and two seconds by default.
unfoldable pub set_retry_config : Multiplier → GivenRetryConfig → RetryConfig
set_retry_config two cfg = record {
  max_retries = if ltb_ℤ cfg.max_retries (pos 0) then 3 else pos_part cfg.max_retries;
  initial_backoff =
      if leb_ℤ cfg.initial_backoff (pos 0) then pos 100000000 else cfg.initial_backoff;
  max_backoff = if leb_ℤ cfg.max_backoff (pos 0) then pos 2000000000 else cfg.max_backoff;
  multiplier = if cfg.multiplier.above_one then cfg.multiplier else two;
}

-- The end of `waitForRetry`: the next delay.
unfoldable pub next_backoff : RetryConfig → ℤ → ℤ
next_backoff cfg b =
    let d = cfg.multiplier.scale b in if ltb_ℤ cfg.max_backoff d then cfg.max_backoff else d

-- Why the loop gives up: all attempts failed, the last one with this message, or the context ended.
pub data RetryError : Type 0 where
  attempts_failed : Text → RetryError
  context_ended : RetryError

-- What a run leaves: the state, what was recorded, the delays waited for, and the result.
pub record Run {ℓ} (S : Type ℓ) : Type ℓ where
  pub state : S
  pub observed : Observability
  pub waits : List ℤ
  pub result : Outcome RetryError (Unit {0})

-- `routeEvent` for an event, and when the context ends: in the wait before an attempt, or by the time
-- an attempt has failed.
pub record Routing {ℓ} (S : Type ℓ) : Type ℓ where
  pub event : RoutedEvent
  pub now : ℕ
  pub route : S → S × Outcome Text (Unit {0})
  pub ends_in_wait : ℕ → Bool
  pub ends_after : ℕ → Bool

module _ {ℓ} {S : Type ℓ} (r : Routing S) (cfg : RetryConfig) where
  stopped : S → Observability → List ℤ → RetryError → Run S
  stopped s o waits e = record { state = s; observed = o; waits = waits; result = err e }

  waited : ℤ → Run S → Run S
  waited b run = record run { waits = b ∷ run.waits }

  -- The iterations from `attempt` on, which is above 0; so many may follow.
  unfoldable pub retry_from : ℕ → ℕ → ℤ → Text → S → Observability → Run S
  unfolding stopped waited
  retry_from zero attempt b last s o =
      stopped s (record_retry_exhausted r.now r.event last o) [] (attempts_failed last)
  retry_from (suc left) attempt b last s o =
      let o' = record_retry_attempt r.now r.event last o in
      elim (r.ends_in_wait attempt) [
        | true ↦ stopped s o' (b ∷ []) context_ended
        | false ↦
            let (s', result) = r.route s in
            elim result [
              | ok _ ↦ record {
                state = s';
                observed = record_retry_recovered r.now r.event o';
                waits = b ∷ [];
                result = ok tt;
              }
              | err e ↦ elim (r.ends_after attempt) [
                | true ↦ stopped s' o' (b ∷ []) context_ended
                | false ↦ waited b (retry_from left (suc attempt) (next_backoff cfg b) e s' o')
              ]
            ]
      ]

  -- `routeEventWithRetry`: the first attempt has no wait, and no record if it succeeds.
  unfoldable pub route_event_with_retry : S → Observability → Run S
  unfolding stopped
  route_event_with_retry s o =
      let (s', result) = r.route s in
      elim result [
        | ok _ ↦ record { state = s'; observed = o; waits = []; result = ok tt }
        | err e ↦ elim (r.ends_after 0) [
          | true ↦ stopped s' o [] context_ended
          | false ↦ retry_from cfg.max_retries 1 cfg.initial_backoff e s' o
        ]
      ]
