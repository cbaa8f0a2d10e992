-- ===== src/DeadLetterQueue/Retries.antt =====
-- When an entry is tried again, and how often.
use pod_backend.Common.{
  ℕ, All, length-keep_if, zero, suc, ap, ◌∙◌, ◌+◌, ◌*◌, ◌^◌, ◌≤◌, ◌<◌, min, ◌≡◌, Bool, true, false,
  some, List, [], ◌∷◌, pos, length, take, length-take, keep_if, mul_int64, mul_int64_fits, ok,
  arith, ◌&&◌,
}
use native.Mathlib.Nat.{mul-le-mul_left}
use pod_backend.Entity.DeadLetter.{DeadLetterEntry, can_retry, schedule_next_retry, backoff, hour}
use pod_backend.DeadLetterTable.{Table, Server, is_known}
use pod_backend.DeadLetterTable.Queries.{is_ready, is_due, is_older, get_pending_for_retry}
use pod_backend.DeadLetterTable.Stats.{DlqStats, get_stats}
use pod_backend.Sorting.{
  sort_stable, sort_stable-All, length-sort_stable, sort_stable-IsSorted, IsSorted, IsSorted-take,
}

pow-positive : (n : ℕ) → 1 ≤ 2 ^ n
pow-positive zero = omega arith
pow-positive (suc n) = omega (arith, pow-positive n)

le_mul_right : (a b : ℕ) → 1 ≤ b → a ≤ a * b
le_mul_right a b h = omega (arith, mul-le-mul_left a h)

le_mul_left : (a b : ℕ) → 1 ≤ a → b ≤ a * b
le_mul_left a b h = omega (arith, mul-le-mul_left b h)

mul_int64-exact :
    (base n : ℕ)
    → 1 ≤ base
    → base * 2 ^ n < 2 ^ 63
    → mul_int64 (pos base) (mul_int64 (pos 1) (pos (2 ^ n))) ≡ pos (base * 2 ^ n)
mul_int64-exact base n b l =
    let p = pow-positive n in
    let u = le_mul_right base (2 ^ n) p in
    let v = le_mul_left base (2 ^ n) b in
    let inner : mul_int64 (pos 1) (pos (2 ^ n)) ≡ pos (2 ^ n) =
      mul_int64_fits 1 (2 ^ n) (omega arith) (omega arith) (omega arith) ∙ ap pos (omega arith) in
    rw inner (mul_int64_fits base (2 ^ n) (omega arith) (omega arith) l)

-- As long as the product stays below 2 ^ 63, the next retry comes after the base delay doubled once
-- for each retry so far, or after an hour if that is less.
pub schedule_next_retry-delay :
    (now base n : ℕ) (e : DeadLetterEntry)
    → e.retry_count ≡ pos n
    → 1 ≤ base
    → base * 2 ^ n < 2 ^ 63
    → schedule_next_retry now (pos base) e
      ≡ some (record e { next_retry_at = some (pos (now + min (base * 2 ^ n) hour)) })
unfolding schedule_next_retry backoff
schedule_next_retry-delay now base n e c b l = rw (c, mul_int64-exact base n b l) (ground (arith))

is_ready-can_retry :
    (now : ℕ) (e : DeadLetterEntry)
    → is_known e.status ≡ true
    → is_ready now e ≡ (can_retry e && is_due now e.next_retry_at)
unfolding is_ready can_retry
is_ready-can_retry now e h = ground arith

-- What the retry loop relies on: the entry may be tried, and its time has come.
abbrev pub is_eligible : ℕ → DeadLetterEntry → Bool
is_eligible now e = can_retry e && is_due now e.next_retry_at

All-keep :
    (now : ℕ) (rows : List DeadLetterEntry)
    → All (λ e. is_known e.status) rows
    → All (is_eligible now) (keep_if (is_ready now) rows)
unfolding keep_if
All-keep now [] h = tt
All-keep now (e ∷ es) h = ground (arith, is_ready-can_retry now e h.0, All-keep now es h.1)

All-take :
    (p : DeadLetterEntry → Bool) (n : ℕ) (xs : List DeadLetterEntry) → All p xs → All p (take n xs)
All-take p zero xs h = tt
All-take p (suc n) [] h = tt
All-take p (suc n) (x ∷ xs) h = (h.0, All-take p n xs h.1)

is_older-asym : (a b : DeadLetterEntry) → is_older a b ≡ true → is_older b a ≡ false
is_older-asym a b h = ground arith

-- Where every row meets the check of the status, `GetPendingForRetry` returns only entries that
-- `CanRetry` admits and whose time has come, oldest first, and as many of those that `GetStats`
-- counts as ready as the limit allows.
pub get_pending_for_retry-eligible :
    (db : Server) (t : Table) (limit : ℕ) (l : List DeadLetterEntry) (s : DlqStats)
    → All (λ e. is_known e.status) t.rows
    → get_pending_for_retry db t (pos limit) ≡ ok l
    → get_stats db t ≡ ok s
    → All (is_eligible db.now) l
      × IsSorted is_older l
      × (length l ≡ min limit s.ready_for_retry_count)
unfolding get_pending_for_retry get_stats
get_pending_for_retry-eligible db t limit l s h e k =
    let ready = keep_if (is_ready db.now) t.rows in
    let sorted = sort_stable is_older ready in
    ground (
      arith,
      All-take (is_eligible db.now) limit sorted
          (sort_stable-All is_older (is_eligible db.now) ready (All-keep db.now t.rows h)),
      IsSorted-take is_older limit sorted (sort_stable-IsSorted is_older is_older-asym ready),
      length-take limit sorted,
      length-sort_stable is_older ready,
      length-keep_if (is_ready db.now) t.rows,
    )
