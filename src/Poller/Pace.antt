-- ===== src/Poller/Pace.antt =====
-- The pace of the polls: the interval between two and the pause after an error.
use pod_backend.Common.{
  ℕ, suc, subst, ◌≡◌, refl, ◌^◌, true, false, Bool, Bool-cases, inl, inr, ◌||◌, ◌&&◌, Option, none,
  some, List, Text, ℤ, pos, leb_ℤ, ltb_ℤ, eqb_ℤ, mul_int64, quot_ℤ, Outcome-cases, arith,
}
use pod_backend.Poller.{
  Poller, PollEffect, Source, Backfilled, filled, failed, out_of_fuel, new_poller_with_intervals,
  normalize_poll_intervals, start, set_last_processed_lt, next_interval, adjust_interval,
  next_backoff_duration, handle_error, hand_over, finish, new_transactions, no_transactions, poll,
}

-- Between the limits, which are positive and whose products do not overflow; and a pause between a
-- second and 16 seconds, or none yet.
pub record IsPaced (p : Poller) : Type 0 where
  pub positive : ltb_ℤ (pos 0) p.min_interval ≡ true
  pub not_below : leb_ℤ p.min_interval p.current_interval ≡ true
  pub not_above : leb_ℤ p.current_interval p.max_interval ≡ true
  pub fits : ltb_ℤ p.max_interval (pos (2 ^ 61)) ≡ true
  pub pause :
      (eqb_ℤ p.backoff_duration (pos 0)
        || (leb_ℤ (pos 1000000000) p.backoff_duration
            && leb_ℤ p.backoff_duration (pos 16000000000)))
      ≡ true

next_interval-bounds :
    (active : Bool) (p : Poller)
    → IsPaced p
    → (leb_ℤ p.min_interval (next_interval active p) ≡ true)
      × (leb_ℤ (next_interval active p) p.max_interval ≡ true)
unfolding next_interval quot_ℤ mul_int64
next_interval-bounds true p i = ground (arith, i.positive, i.not_below, i.not_above, i.fits)
next_interval-bounds false p i = ground (arith, i.positive, i.not_below, i.not_above, i.fits)

adjust_interval-IsPaced :
    (active : Bool) (p : Poller) → IsPaced p → IsPaced (adjust_interval active p).0
unfolding adjust_interval
adjust_interval-IsPaced active p i =
    let (lo, hi) = next_interval-bounds active p i in
    record { positive = i.positive; not_below = lo; not_above = hi; fits = i.fits; pause = i.pause }

handle_error-IsPaced : (p : Poller) → IsPaced p → IsPaced (handle_error p).0
unfolding handle_error next_backoff_duration mul_int64
handle_error-IsPaced p i = adjust_interval-IsPaced false _ (record {
  positive = i.positive;
  not_below = i.not_below;
  not_above = i.not_above;
  fits = i.fits;
  pause = ground (arith, i.pause);
})

abbrev Paced : {H : Type 0} → Option (Poller × H × List PollEffect) → Type 0
Paced none = Unit
Paced (some (p, _, _)) = IsPaced p

module _ {H : Type 0} (source : Source H) where
  -- A poller that has the same pace.
  same_pace :
      (p : Poller) (lt : Text) (n : ℕ)
      → IsPaced p
      → IsPaced (record p { last_processed_lt = lt; requests = n })
  same_pace p lt n i = record {
    positive = i.positive;
    not_below = i.not_below;
    not_above = i.not_above;
    fits = i.fits;
    pause = i.pause;
  }

  finish-Paced : (b : Backfilled) (p : Poller) (h : H) → IsPaced p → Paced (finish source b p h)
  unfolding finish hand_over
  finish-Paced out_of_fuel p h i = tt
  finish-Paced (failed n) p h i = handle_error-IsPaced _ (same_pace p p.last_processed_lt n i)
  finish-Paced (filled txs n) p h i = adjust_interval-IsPaced _ _ (same_pace p _ n i)

  poll-Paced : (fuel : ℕ) (p : Poller) (h : H) → IsPaced p → Paced (poll source fuel p h)
  unfolding poll
  poll-Paced fuel p h i =
      let reset : IsPaced (record p {
        consecutive_errors = pos 0;
        backoff_duration = pos 1000000000;
        requests = suc p.requests;
      }) =
        record {
          positive = i.positive;
          not_below = i.not_below;
          not_above = i.not_above;
          fits = i.fits;
          pause = refl;
        } in
      elim (Outcome-cases (source.get_transactions p.requests none)) [
        | inr (e, g) ↦
            rw (g, Paced, poll)
              (handle_error-IsPaced _ (same_pace p p.last_processed_lt (suc p.requests) i))
        | inl (page, g) ↦
            elim (Bool-cases (no_transactions (new_transactions source p.last_processed_lt page))) [
              | inl e ↦ rw (g, e, Paced, poll) (adjust_interval-IsPaced false _ reset)
              | inr e ↦ rw (g, e, Paced, poll) (finish-Paced _ _ h reset)
            ]
      ]

-- What calls make of a new poller whose limits are less than 2 ^ 61 nanoseconds, which is 73 years.
pub data Reaches {H : Type 0} (source : Source H) : Poller → H → Type 0 where
  created :
      (lo hi : ℤ) (h : H)
      → ltb_ℤ lo (pos (2 ^ 61)) ≡ true
      → ltb_ℤ hi (pos (2 ^ 61)) ≡ true
      → Reaches source (new_poller_with_intervals lo hi) h
  started : (p : Poller) (h : H) → Reaches source p h → Reaches source (start p) h
  resumed :
      (p : Poller) (h : H) (lt : Text)
      → Reaches source p h
      → Reaches source (set_last_processed_lt lt p) h
  polled :
      (fuel : ℕ) (p p' : Poller) (h h' : H) (effects : List PollEffect)
      → poll source fuel p h ≡ some (p', h', effects)
      → Reaches source p h
      → Reaches source p' h'

new_poller_with_intervals-IsPaced :
    (lo hi : ℤ)
    → ltb_ℤ lo (pos (2 ^ 61)) ≡ true
    → ltb_ℤ hi (pos (2 ^ 61)) ≡ true
    → IsPaced (new_poller_with_intervals lo hi)
unfolding new_poller_with_intervals normalize_poll_intervals
new_poller_with_intervals-IsPaced lo hi a b = ground arith

start-IsPaced : (p : Poller) → IsPaced p → IsPaced (start p)
unfolding start normalize_poll_intervals
start-IsPaced p i = ground (arith, i.positive, i.not_below, i.not_above, i.fits, i.pause)

-- Where both limits that a poller is made with are less than 2 ^ 61 nanoseconds, then however often it
-- polls, and whatever the API and the handler answer, its interval stays between its two limits, the
-- limits stay positive, and the pause that it keeps is none yet, or a second at least and 16 seconds at
-- most.
pub Reaches-IsPaced :
    {H : Type 0} (source : Source H) (p : Poller) (h : H) → Reaches source p h → IsPaced p
unfolding set_last_processed_lt
Reaches-IsPaced source _ h (created lo hi _ a b) = new_poller_with_intervals-IsPaced lo hi a b
Reaches-IsPaced source _ h (started p _ r) = start-IsPaced p (Reaches-IsPaced source p h r)
Reaches-IsPaced source _ h (resumed p _ lt r) =
    same_pace source p _ p.requests (Reaches-IsPaced source p h r)
Reaches-IsPaced source _ h' (polled fuel p p' h _ effects e r) =
    subst Paced e (poll-Paced source fuel p h (Reaches-IsPaced source p h r))
