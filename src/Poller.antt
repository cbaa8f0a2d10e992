-- ===== src/Poller.antt =====
-- internal/infrastructure/toncenter/poller.go, `Poller`: the checkpoint, the polls and their pace.
-- Answers of the API and of the handler are chosen by the environment. Durations are nanoseconds.
-- Logging is left out, as are the goroutine of `Start` and its channel.
pub mod Transactions
pub mod Accounting
pub mod Ordering
pub mod Backfilling
pub mod Returning
pub mod Polls
pub mod Progress
pub mod Pace
use pod_backend.Common.{
  ℕ, zero, suc, Bool, true, false, not, ◌&&◌, ◌||◌, Option, none, some, List, [], ◌∷◌, ◌++◌, Text,
  codes, is_empty, ℤ, pos, ltb_ℤ, leb_ℤ, mul_int64, add_int64, quot_ℤ, eqb_ℤ, eqb, parse_uint,
  keep_if, Outcome, ok, err, text_eq, if◌then◌else◌,
}
use pod_backend.Poller.Transactions.{
  Transaction, Big, normalize_lt, compare_lt, lt_less, normalize_transactions_by_lt,
}
use pod_backend.Sorting.{sort_stable}

abbrev pub second : ℤ
second = pos 1000000000

abbrev pub min_poll_interval : ℤ
min_poll_interval = pos 5000000000

abbrev pub max_poll_interval : ℤ
max_poll_interval = pos 30000000000

abbrev pub backoff_initial : ℤ
backoff_initial = pos 1000000000

abbrev pub backoff_max : ℤ
backoff_max = pos 16000000000

-- `Poller`; `requests` counts the calls of the client.
pub record Poller : Type 0 where
  pub current_interval : ℤ
  pub min_interval : ℤ
  pub max_interval : ℤ
  pub last_processed_lt : Text
  pub ticking : Bool
  pub backoff_duration : ℤ
  pub consecutive_errors : ℤ
  pub calls_back : Bool
  pub requests : ℕ

-- What a poll does outside its state.
pub data PollEffect : Type 0 where
  slept : ℤ → PollEffect
  ticker_reset : ℤ → PollEffect
  lt_updated : Text → PollEffect

-- The client, by the number of the request and the place to read from, and the handler.
pub record Source (H : Type 0) : Type 0 where
  pub big : Big
  pub get_transactions : ℕ → Option (ℕ × Text) → Outcome Text (List Transaction)
  pub handle_transaction : Transaction → H → Outcome Text (Unit {0}) × H

-- `normalizePollIntervals`
unfoldable pub normalize_poll_intervals : ℤ → ℤ → ℤ × ℤ
normalize_poll_intervals lo hi =
    let lo' = if leb_ℤ lo (pos 0) then min_poll_interval else lo in
    let hi' = if leb_ℤ hi (pos 0) then max_poll_interval else hi in
    (lo', if ltb_ℤ hi' lo' then lo' else hi')

-- `NewPollerWithIntervals`, which is `NewPoller` with the two constants.
unfoldable pub new_poller_with_intervals : ℤ → ℤ → Poller
new_poller_with_intervals lo hi =
    let (lo', hi') = normalize_poll_intervals lo hi in
    record {
      current_interval = hi';
      min_interval = lo';
      max_interval = hi';
      last_processed_lt = codes "0";
      ticking = false;
      backoff_duration = pos 0;
      consecutive_errors = pos 0;
      calls_back = false;
      requests = 0;
    }

-- `Start`, up to the loop.
unfoldable pub start : Poller → Poller
start p =
    let (lo, hi) = normalize_poll_intervals p.min_interval p.max_interval in
    record p {
      min_interval = lo;
      max_interval = hi;
      current_interval = if leb_ℤ p.current_interval (pos 0) then hi else p.current_interval;
      ticking = true;
    }

-- `SetLastProcessedLt`
unfoldable pub set_last_processed_lt : Text → Poller → Poller
set_last_processed_lt lt p = record p { last_processed_lt = normalize_lt lt }

-- The interval that `adjustInterval` comes to.
unfoldable pub next_interval : Bool → Poller → ℤ
next_interval true p =
    let d = quot_ℤ (mul_int64 p.current_interval (pos 2)) 3 in
    if ltb_ℤ d p.min_interval then p.min_interval else d
next_interval false p =
    let d = quot_ℤ (mul_int64 p.current_interval (pos 3)) 2 in
    if ltb_ℤ p.max_interval d then p.max_interval else d

-- `adjustInterval`
unfoldable pub adjust_interval : Bool → Poller → Poller × List PollEffect
adjust_interval active p =
    let d = next_interval active p in
    (
      record p { current_interval = d },
      if not (eqb_ℤ d p.current_interval) && p.ticking then ticker_reset d ∷ [] else [],
    )

-- The backoff that `handleError` comes to.
unfoldable pub next_backoff_duration : ℤ → ℤ
next_backoff_duration d =
    if eqb_ℤ d (pos 0)
    then backoff_initial
    else (let d' = mul_int64 d (pos 2) in if ltb_ℤ backoff_max d' then backoff_max else d')

-- `handleError`
unfoldable pub handle_error : Poller → Poller × List PollEffect
handle_error p =
    let d = next_backoff_duration p.backoff_duration in
    let (p', effects) = adjust_interval false (record p {
      consecutive_errors = add_int64 p.consecutive_errors (pos 1);
      backoff_duration = d;
    }) in
    (p', slept d ∷ effects)

abbrev pub no_transactions : List Transaction → Bool
no_transactions [] = true
no_transactions (_ ∷ _) = false

-- What the loop that fetches older pages ends with, and the number of requests by then.
pub data Backfilled : Type 0 where
  filled : List Transaction → ℕ → Backfilled
  failed : ℕ → Backfilled
  out_of_fuel : Backfilled

-- What the loop over the transactions ends with.
pub record Processed (H : Type 0) : Type 0 where
  pub last_lt : Text
  pub last_successful_lt : Option Text
  pub has_failure : Bool
  pub handler_state : H

module _ {H : Type 0} (source : Source H) where
  unfoldable pub is_newer_than : Text → Transaction → Bool
  is_newer_than last tx = compare_lt source.big tx.lt last

  -- The test of the backfill loop: the transaction before the oldest one was not processed.
  unfoldable pub has_gap : Text → Transaction → Bool
  has_gap last oldest =
      not (is_empty oldest.prev_trans_lt)
      && not (eqb oldest.prev_trans_lt (codes "0"))
      && compare_lt source.big oldest.prev_trans_lt last

  -- The backfill loop, for the requests that are left.
  unfoldable pub backfill : ℕ → Text → ℕ → List Transaction → Backfilled
  unfolding is_newer_than has_gap
  backfill fuel last n [] = filled [] n
  backfill zero last n (oldest ∷ txs) =
      if has_gap last oldest then out_of_fuel else filled (oldest ∷ txs) n
  backfill (suc fuel) last n (oldest ∷ txs) = elim (has_gap last oldest) [
    | false ↦ filled (oldest ∷ txs) n
    | true ↦ elim (parse_uint oldest.prev_trans_lt) [
      | none ↦ filled (oldest ∷ txs) n
      | some prev ↦ elim (source.get_transactions n (some (prev, oldest.prev_trans_hash))) [
        | err _ ↦ failed (suc n)
        | ok page ↦ elim (no_transactions (keep_if (is_newer_than last) page)) [
          | true ↦ filled (oldest ∷ txs) (suc n)
          | false ↦ backfill fuel last (suc n) (
              normalize_transactions_by_lt source.big true
                (oldest ∷ txs ++ keep_if (is_newer_than last) page))
        ]
      ]
    ]
  ]

  -- The loop that hands the transactions over, up to the first that fails.
  unfoldable pub process : Text → Option Text → List Transaction → H → Processed H
  unfolding is_newer_than
  process last successful [] h = record {
    last_lt = last;
    last_successful_lt = successful;
    has_failure = false;
    handler_state = h;
  }
  process last successful (tx ∷ txs) h =
      let (r, h') = source.handle_transaction tx h in
      elim r [
        | err _ ↦ record {
          last_lt = last;
          last_successful_lt = successful;
          has_failure = true;
          handler_state = h';
        }
        | ok _ ↦
            let newer = is_newer_than last tx in
            process (if newer then tx.lt else last) (if newer then some tx.lt else successful) txs
              h'
      ]

  unfoldable pub report_lt : Bool → Option Text → List PollEffect
  report_lt true (some lt) = lt_updated lt ∷ []
  report_lt _ _ = []

  -- The end of a poll, once its transactions are known.
  unfoldable pub hand_over : List Transaction → Poller → H → Poller × H × List PollEffect
  unfolding process report_lt
  hand_over txs p h =
      let done = process p.last_processed_lt none txs h in
      let (p', effects) =
        adjust_interval (not done.has_failure) (record p { last_processed_lt = done.last_lt }) in
      (p', done.handler_state, report_lt p.calls_back done.last_successful_lt ++ effects)

  -- The rest of a poll behind the backfill loop.
  unfoldable pub finish : Backfilled → Poller → H → Option (Poller × H × List PollEffect)
  finish out_of_fuel p h = none
  finish (failed n) p h =
      let (p', effects) = handle_error (record p { requests = n }) in some (p', h, effects)
  finish (filled txs n) p h = some (hand_over txs (record p { requests = n }) h)

  -- The loop is left out at the first checkpoint.
  unfoldable pub fill_gap : ℕ → Text → ℕ → List Transaction → Backfilled
  fill_gap fuel last n txs = if eqb last (codes "0") then filled txs n else backfill fuel last n txs

  -- What a poll takes from its first page.
  unfoldable pub new_transactions : Text → List Transaction → List Transaction
  unfolding is_newer_than
  new_transactions last page =
      normalize_transactions_by_lt source.big true (keep_if (is_newer_than last) page)

  -- `poll`: none if the backfill loop makes more requests than there is fuel.
  unfoldable pub poll : ℕ → Poller → H → Option (Poller × H × List PollEffect)
  poll fuel p h = elim (source.get_transactions p.requests none) [
    | err _ ↦
        let (p', effects) = handle_error (record p { requests = suc p.requests }) in
        some (p', h, effects)
    | ok page ↦
        let p1 = record p {
          consecutive_errors = pos 0;
          backoff_duration = backoff_initial;
          requests = suc p.requests;
        } in
        let new = new_transactions p.last_processed_lt page in
        elim (no_transactions new) [
          | true ↦ let (p', effects) = adjust_interval false p1 in some (p', h, effects)
          | false ↦
              finish
                (fill_gap fuel p.last_processed_lt p1.requests
                  (sort_stable (lt_less source.big) new))
                p1 h
        ]
  ]
