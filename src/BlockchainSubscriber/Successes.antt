-- ===== src/BlockchainSubscriber/Successes.antt =====
-- When the retry loop of internal/usecase/blockchain_subscriber.go succeeds, and how long it waits.
use pod_backend.Common.{
  ℕ, zero, suc, ◌≤◌, ◌≡◌, refl, Bool, true, false, ◌||◌, Text, ℤ, leb_ℤ, eqb_ℤ, eqb_ℤ_iff, length,
  take, drop, All, Outcome, Outcome-cases, inl, inr, ok, err, arith,
}
use pod_backend.BlockchainSubscriber.{Observability, record_retry_attempt}
use pod_backend.BlockchainSubscriber.Retrying.{
  RetryConfig, Routing, next_backoff, retry_from, route_event_with_retry,
}

abbrev pub is_ok {ℓ κ} : {E : Type ℓ} {A : Type κ} → Outcome E A → Bool
is_ok (ok a) = true
is_ok (err e) = false

module _ {ℓ} {S : Type ℓ} (r : Routing S) where
  -- Whether one of the next calls of the handler succeeds; there is one more than the number.
  abbrev pub succeeds_within : ℕ → S → Bool
  succeeds_within zero s = is_ok (r.route s).1
  succeeds_within (suc n) s = is_ok (r.route s).1 || succeeds_within n (r.route s).0

  -- The context does not end.
  abbrev pub Undisturbed : Type 0
  Undisturbed = (n : ℕ) → (r.ends_in_wait n ≡ false) × (r.ends_after n ≡ false)

  -- Whether one of so many calls succeeds.
  succeeds_among : ℕ → S → Bool
  succeeds_among zero s = false
  succeeds_among (suc n) s = is_ok (r.route s).1 || succeeds_among n (r.route s).0

  among-within : (n : ℕ) (s : S) → succeeds_among (suc n) s ≡ succeeds_within n s
  unfolding succeeds_among
  among-within zero s = ground arith
  among-within (suc n) s = ground (arith, among-within n (r.route s).0)

module _ {ℓ} {S : Type ℓ} (r : Routing S) (cfg : RetryConfig) where
  retry_from-succeeds :
      (u : Undisturbed r) (left attempt : ℕ) (b : ℤ) (last : Text) (s : S) (o : Observability)
      → is_ok (retry_from r cfg left attempt b last s o).result ≡ succeeds_among r left s
  unfolding retry_from succeeds_among
  retry_from-succeeds u zero attempt b last s o = refl
  retry_from-succeeds u (suc left) attempt b last s o =
      let (p, q) = u attempt in
      elim (Outcome-cases (r.route s).1) [
        | inl (x, e) ↦ ground arith
        | inr (x, e) ↦ ground (
          arith,
          retry_from-succeeds u left (suc attempt) (next_backoff cfg b) x (r.route s).0
              (record_retry_attempt r.now r.event last o),
        )
      ]

  retry_from-waits :
      (left attempt : ℕ) (b : ℤ) (last : Text) (s : S) (o : Observability)
      → length (retry_from r cfg left attempt b last s o).waits ≤ left
  unfolding retry_from
  retry_from-waits zero attempt b last s o = omega arith
  retry_from-waits (suc left) attempt b last s o = elim (Outcome-cases (r.route s).1) [
    | inl (x, e) ↦ ground arith
    | inr (x, e) ↦ ground (
      arith,
      retry_from-waits left (suc attempt) (next_backoff cfg b) x (r.route s).0
          (record_retry_attempt r.now r.event last o),
    )
  ]

  next_backoff-capped : (b : ℤ) → leb_ℤ (next_backoff cfg b) cfg.max_backoff ≡ true
  unfolding next_backoff
  next_backoff-capped b = ground arith

  -- Every delay is within the cap, if the first one is.
  retry_from-capped :
      (left attempt : ℕ) (b : ℤ) (last : Text) (s : S) (o : Observability)
      → leb_ℤ b cfg.max_backoff ≡ true
      → All (λ d. leb_ℤ d cfg.max_backoff) (retry_from r cfg left attempt b last s o).waits
  unfolding retry_from
  retry_from-capped zero attempt b last s o h = tt
  retry_from-capped (suc left) attempt b last s o h = elim (Outcome-cases (r.route s).1) [
    | inl (x, e) ↦ ground arith
    | inr (x, e) ↦ ground (
      arith,
      retry_from-capped left (suc attempt) (next_backoff cfg b) x (r.route s).0
          (record_retry_attempt r.now r.event last o) (next_backoff-capped b),
    )
  ]

  retry_from-first :
      (left attempt : ℕ) (b : ℤ) (last : Text) (s : S) (o : Observability)
      → All (λ d. eqb_ℤ d b) (take 1 (retry_from r cfg left attempt b last s o).waits)
  unfolding retry_from
  retry_from-first zero attempt b last s o = tt
  retry_from-first (suc left) attempt b last s o = elim (Outcome-cases (r.route s).1) [
    | inl (x, e) ↦ ground (arith, (eqb_ℤ_iff b b).1 refl)
    | inr (x, e) ↦ ground (arith, (eqb_ℤ_iff b b).1 refl)
  ]

  retry_from-later :
      (left attempt : ℕ) (b : ℤ) (last : Text) (s : S) (o : Observability)
      → All (λ d. leb_ℤ d cfg.max_backoff) (drop 1 (retry_from r cfg left attempt b last s o).waits)
  unfolding retry_from
  retry_from-later zero attempt b last s o = tt
  retry_from-later (suc left) attempt b last s o = elim (Outcome-cases (r.route s).1) [
    | inl (x, e) ↦ ground arith
    | inr (x, e) ↦ ground (
      arith,
      retry_from-capped left (suc attempt) (next_backoff cfg b) x (r.route s).0
          (record_retry_attempt r.now r.event last o) (next_backoff-capped b),
    )
  ]

  -- While the context does not end, `routeEventWithRetry` succeeds exactly when one of the first
  -- attempts does, the number of retries and one more. It waits at most once for each retry: first for
  -- the initial delay, and then never longer than the cap.
  pub route_event_with_retry-succeeds :
      (s : S) (o : Observability)
      → Undisturbed r
      → (is_ok (route_event_with_retry r cfg s o).result ≡ succeeds_within r cfg.max_retries s)
        × (length (route_event_with_retry r cfg s o).waits ≤ cfg.max_retries)
        × All (λ d. eqb_ℤ d cfg.initial_backoff) (take 1 (route_event_with_retry r cfg s o).waits)
        × All (λ d. leb_ℤ d cfg.max_backoff) (drop 1 (route_event_with_retry r cfg s o).waits)
  unfolding route_event_with_retry succeeds_among
  route_event_with_retry-succeeds s o u =
      let n = cfg.max_retries in
      let (p, q) = u 0 in
      elim (Outcome-cases (r.route s).1) [
        | inl (x, e) ↦ ground (arith, among-within r n s)
        | inr (x, e) ↦
            let s' = (r.route s).0 in
            let b = cfg.initial_backoff in
            ground (
              arith,
              among-within r n s,
              retry_from-succeeds u n 1 b x s' o,
              retry_from-waits n 1 b x s' o,
              retry_from-first n 1 b x s' o,
              retry_from-later n 1 b x s' o,
            )
      ]
