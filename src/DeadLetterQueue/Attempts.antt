-- ===== src/DeadLetterQueue/Attempts.antt =====
-- Repeated attempts on one entry: they run out.
use pod_backend.Common.{
  ℕ, ap, ◌∙◌, suc, ◌+◌, ◌^◌, ◌<◌, ◌≡◌, refl, true, Option, none, some, List, [], ◌∷◌, ℤ, pos, ltb,
  length, add_int64, add_int64_fits, arith,
}
use pod_backend.Entity.DeadLetter.{
  DeadLetterEntry, can_retry, mark_retrying, schedule_next_retry, backoff, after,
}
use pod_backend.DeadLetterTable.{Table, Server, update, is_open}
use pod_backend.DeadLetterQueue.{mark_retry_attempt}

-- The attempts of the retry loop on an entry that it holds, each at its own time; `none` is a panic.
unfoldable pub attempts :
    ℤ → List Server → Table → DeadLetterEntry → Option (Table × DeadLetterEntry)
attempts base [] t e = some (t, e)
attempts base (db ∷ dbs) t e = elim (mark_retry_attempt db t base e) [
  | none ↦ none
  | some (t', e', _) ↦ attempts base dbs t' e'
]

-- An entry with a count of `n` out of `m`, with a status that allows retries.
pub record Counts (n m : ℕ) (e : DeadLetterEntry) : Type 0 where
  pub counted : e.retry_count ≡ pos n
  pub allowed : e.max_retries ≡ pos m
  pub still_open : is_open e.status ≡ true

can_retry-Counts : (n m : ℕ) (e : DeadLetterEntry) → Counts n m e → can_retry e ≡ ltb n m
unfolding can_retry
can_retry-Counts n m e c = ground (arith, c.counted, c.allowed, c.still_open)

scheduled :
    (now n : ℕ) (base : ℤ) (e : DeadLetterEntry)
    → e.retry_count ≡ pos n
    → schedule_next_retry now base e
      ≡ some (record e { next_retry_at = some (after now (backoff base n)) })
unfolding schedule_next_retry
scheduled now n base e h = ground (arith, h)

attempt-Counts :
    (base : ℤ) (db : Server) (t : Table) (n m : ℕ) (e : DeadLetterEntry)
    → suc n < 2 ^ 63
    → Counts n m e
    → (e' : DeadLetterEntry) × (mark_retry_attempt db t base e
        ≡ some ((update db t e').0, e', (update db t e').1))
      × Counts (suc n) m e'
unfolding mark_retry_attempt mark_retrying
attempt-Counts base db t n m e h c =
    let s : add_int64 e.retry_count (pos 1) ≡ pos (suc n) =
      rw (c.counted) (add_int64_fits n 1 (omega arith) ∙ ap pos (omega arith)) in
    (
      record (mark_retrying db.now e) {
        next_retry_at = some (after db.now (backoff base (suc n)));
      },
      rw (scheduled db.now (suc n) base (mark_retrying db.now e) s, mark_retry_attempt) refl,
      record { counted = s; allowed = c.allowed; still_open = refl },
    )

-- An entry that has been tried `n` times out of `m` and is open can be tried again after any further
-- attempts, if they and `n` together are fewer than `m`, and not otherwise; no attempt panics. The
-- counts stay below 2 ^ 63.
pub attempts_run_out :
    (base : ℤ) (dbs : List Server) (t : Table) (n m : ℕ) (e : DeadLetterEntry)
    → n + length dbs < 2 ^ 63
    → Counts n m e
    → (t' : Table) × (e' : DeadLetterEntry) × (attempts base dbs t e ≡ some (t', e'))
      × (can_retry e' ≡ ltb (n + length dbs) m)
unfolding attempts
attempts_run_out base [] t n m e h c = (t, e, refl, ground (arith, can_retry-Counts n m e c))
attempts_run_out base (db ∷ dbs) t n m e h c =
    let (e', p, c') = attempt-Counts base db t n m e (omega arith) c in
    let (t'', e'', q, k) =
      attempts_run_out base dbs (update db t e').0 (suc n) m e' (omega arith) c' in
    (t'', e'', rw (p, attempts) q, ground arith)
