-- ===== src/Reservation/Tenure.antt =====
-- How long a reservation of the join use case lasts, whatever calls come in between.
use pod_backend.Common.{
  ℕ, ◌≤◌, ◌≡◌, refl, ap, ◌≢◌, ◌∙◌, false, some, List, [], ◌∷◌, Text, ℤ, ok, int_eq, text_eq, arith,
  Option-cases, Outcome-cases, inl, inr,
}
use pod_backend.Common.Dict.{lookup}
use pod_backend.Entity.Reservation.{GameReservation, released}
use pod_backend.Ledger.{World, Ledger, get_active}
use pod_backend.Ledger.Invariant.{Inv}
use pod_backend.Ledger.Limit.{Safe, Safe-later, get_active-some, get_active_of_lookup}
use pod_backend.Ledger.Reads.{get_active-close, get_active-forget, get_active-later}
use pod_backend.Reservation.{
  reserve, cancel, release_on_join, is_reservation_game_available, keep_available, list_by_wallet,
  release_stale_reservation, cleanup_expired,
}
use pod_backend.Reservation.Cleanup.{lookup-cleanup_expired}
use pod_backend.Reservation.History.{
  Call, reserves, cancels_by, joins, lists, cleans, step, run, InOrder, last_time, step-Safe,
}
use pod_backend.Reservation.Outcomes.{
  reserve_ok_iff, reserve_takes, reserve-err_unchanged, cancel_cases,
}
use pod_backend.Wallet.{AddressLib, normalize_reservation_wallet}

-- The calls that may end a reservation before its time: `Cancel` by its wallet, the join of its game,
-- and a listing that finds the game no longer available.
abbrev pub Frees : AddressLib → World → ℤ → GameReservation → Call → Type 0
Frees lib w g r (reserves j wallet) = ⊥
Frees lib w g r (cancels_by j wallet) =
    (j ≡ g)
    × (normalize_reservation_wallet lib r.wallet_address ≡ normalize_reservation_wallet lib wallet)
Frees lib w g r (joins j) = j ≡ g
Frees lib w g r (lists wallet) = is_reservation_game_available w.repo_set w.get_by_id g ≡ ok false
Frees lib w g r cleans = ⊥

module _ (lib : AddressLib) (w : World) (g : ℤ) (r : GameReservation) where
  reserve_keeps :
      (st : Ledger) (j : ℤ) (wallet : Text)
      → get_active w.now st g ≡ some r
      → get_active w.now (reserve lib w st j wallet).0 g ≡ some r
  reserve_keeps st j wallet h = elim (Outcome-cases (reserve lib w st j wallet).1) [
    | inr (e, f) ↦ rw ((reserve-err_unchanged lib w st j wallet e f).0) h
    | inl (n, f) ↦
        let free = ((reserve_ok_iff lib w st j wallet).0 (n, f)).free in
        ground (
          arith,
          (reserve_takes lib w st j g wallet n f).1,
          free,
          ap (get_active w.now st) {x = j} {y = g},
        )
  ]

  release_stale_keeps :
      (st : Ledger) (j : ℤ)
      → get_active w.now st g ≡ some r
      → j ≢ g
      → get_active w.now (release_stale_reservation lib w st j) g ≡ some r
  unfolding release_stale_reservation
  release_stale_keeps st j h d = elim (Option-cases (lookup j st.reservations)) [
    | inl e ↦ rw (e, release_stale_reservation) h
    | inr (s, e) ↦
        rw (e, release_stale_reservation) (ground (arith, get_active-forget lib w.now st j g s))
  ]

  keep_available_keeps :
      (st : Ledger) (rs : List GameReservation)
      → is_reservation_game_available w.repo_set w.get_by_id g ≢ ok false
      → get_active w.now st g ≡ some r
      → get_active w.now (keep_available lib w st rs).0 g ≡ some r
  unfolding keep_available
  keep_available_keeps st [] a h = h
  keep_available_keeps st (s ∷ rs) a h = ground (
    arith,
    keep_available_keeps st rs a h,
    keep_available_keeps (release_stale_reservation lib w st s.game_id) rs a,
    release_stale_keeps st s.game_id h,
  )

  join_keeps :
      (st : Ledger) (j : ℤ)
      → get_active w.now st g ≡ some r
      → j ≢ g
      → get_active w.now (release_on_join lib w st j).0 g ≡ some r
  unfolding release_on_join
  join_keeps st j h d = elim (Option-cases (get_active w.now st j)) [
    | inl e ↦ rw (e, release_on_join) h
    | inr (s, e) ↦
        rw (e, release_on_join) (ground (arith, get_active-close lib released w.now st j g s refl))
  ]

  cancel_keeps :
      (st : Ledger) (j : ℤ) (wallet : Text)
      → get_active w.now st g ≡ some r
      → ¬ Frees lib w g r (cancels_by j wallet)
      → get_active w.now (cancel lib w st j wallet).0 g ≡ some r
  cancel_keeps st j wallet h d =
      ground (arith, cancel_cases lib w st j g wallet, ap (get_active w.now st) {x = j} {y = g})

  list_keeps :
      (st : Ledger) (wallet : Text)
      → is_reservation_game_available w.repo_set w.get_by_id g ≢ ok false
      → get_active w.now st g ≡ some r
      → get_active w.now (list_by_wallet lib w st wallet).0 g ≡ some r
  unfolding list_by_wallet
  list_keeps st wallet a h = keep_available_keeps st _ a h

  cleanup_keeps :
      (st : Ledger)
      → Inv lib st
      → get_active w.now st g ≡ some r
      → get_active w.now (cleanup_expired lib w.now st).0 g ≡ some r
  cleanup_keeps st v h =
      get_active_of_lookup w.now (cleanup_expired lib w.now st).0 g r
        (lookup-cleanup_expired lib w.now st g v ∙ h) (get_active-some w.now st g r h).1

  -- One call that does not free the reservation keeps it.
  step_keeps :
      (st : Ledger) (c : Call)
      → Inv lib st
      → get_active w.now st g ≡ some r
      → ¬ Frees lib w g r c
      → get_active w.now (step lib w st c) g ≡ some r
  unfolding step
  step_keeps st (reserves j wallet) v h d = reserve_keeps st j wallet h
  step_keeps st (cancels_by j wallet) v h d = cancel_keeps st j wallet h d
  step_keeps st (joins j) v h d = join_keeps st j h d
  step_keeps st (lists wallet) v h d = list_keeps st wallet d h
  step_keeps st cleans v h d = cleanup_keeps st v h

-- No call of a history frees the reservation.
abbrev pub NoneFrees : AddressLib → ℤ → GameReservation → List (World × Call) → Type 0
NoneFrees lib g r [] = Unit
NoneFrees lib g r ((w, c) ∷ calls) = (¬ Frees lib w g r c) × NoneFrees lib g r calls

le-last_time :
    (now : ℕ) (calls : List (World × Call)) → InOrder now calls → now ≤ last_time now calls
le-last_time now [] o = omega arith
le-last_time now ((w, c) ∷ calls) o = omega (arith, le-last_time w.now calls o.1)

-- A reservation that is active stays the active reservation of its game, unchanged, through any calls
-- in the order of time up to its expiry, by whichever wallets, cleanups among them, unless its own
-- wallet cancels it, its game is joined, or a listing finds its game no longer waiting.
pub run_keeps :
    (lib : AddressLib) (g : ℤ) (r : GameReservation) (now : ℕ) (st : Ledger)
    (calls : List (World × Call))
    → Safe lib now st
    → InOrder now calls
    → last_time now calls ≤ r.expires_at
    → NoneFrees lib g r calls
    → get_active now st g ≡ some r
    → get_active (last_time now calls) (run lib st calls) g ≡ some r
unfolding run
run_keeps lib g r now st [] s o b n h = h
run_keeps lib g r now st ((w, c) ∷ calls) s o b n h =
    let s' = Safe-later lib o.0 s in
    let h' =
      get_active-later now w.now st g r o.0 h (omega (arith, le-last_time w.now calls o.1)) in
    run_keeps lib g r w.now (step lib w st c) calls (step-Safe lib w st c s') o.1 b n.1
      (step_keeps lib w g r st c s'.inv h' n.0)
