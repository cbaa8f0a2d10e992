-- ===== src/Reservation/History.antt =====
-- Histories of calls on the join use case: what holds after any of them.
use pod_backend.Common.{
  ℕ, ◌≤◌, refl, Bool, List, [], ◌∷◌, Text, ℤ, arith, Option-cases, inl, inr, int_eq,
}
use pod_backend.Common.Dict.{lookup}
use pod_backend.Entity.Reservation.{GameReservation, released}
use pod_backend.Ledger.{World, Config, Ledger, get_active, new_reservation}
use pod_backend.Ledger.Limit.{
  Safe, Safe-later, new_ledger-Safe, put-Safe, close_found-Safe, forget-Safe,
}
use pod_backend.Reservation.Cleanup.{cleanup_expired-Safe}
use pod_backend.Reservation.{
  new_reservation_use_case, commit, reserve, cancel, release_on_join, release_stale_reservation,
  keep_available, list_by_wallet, cleanup_expired,
}
use pod_backend.Wallet.{AddressLib}

module _ (lib : AddressLib) (w : World) where
  commit-Safe :
      (st : Ledger) (g : ℤ) (wallet : Text)
      → Safe lib w.now st
      → Safe lib w.now (commit lib w st g wallet).0
  unfolding commit new_reservation
  commit-Safe st g wallet s =
      ground (arith, put-Safe lib w.now st g (new_reservation lib w.now st.timeout g wallet) refl)

  reserve-Safe :
      (st : Ledger) (g : ℤ) (wallet : Text)
      → Safe lib w.now st
      → Safe lib w.now (reserve lib w st g wallet).0
  unfolding reserve
  reserve-Safe st g wallet s = ground (arith, commit-Safe st g wallet s)

  cancel-Safe :
      (st : Ledger) (g : ℤ) (wallet : Text)
      → Safe lib w.now st
      → Safe lib w.now (cancel lib w st g wallet).0
  unfolding cancel
  cancel-Safe st g wallet s = elim (Option-cases (get_active w.now st g)) [
    | inl e ↦ rw (e, cancel) s
    | inr (r, e) ↦ ground (arith, close_found-Safe lib released w.now st g r e refl s)
  ]

  release_on_join-Safe :
      (st : Ledger) (g : ℤ) → Safe lib w.now st → Safe lib w.now (release_on_join lib w st g).0
  unfolding release_on_join
  release_on_join-Safe st g s = elim (Option-cases (get_active w.now st g)) [
    | inl e ↦ rw (e, release_on_join) s
    | inr (r, e) ↦ ground (arith, close_found-Safe lib released w.now st g r e refl s)
  ]

  release_stale_reservation-Safe :
      (st : Ledger) (g : ℤ)
      → Safe lib w.now st
      → Safe lib w.now (release_stale_reservation lib w st g)
  unfolding release_stale_reservation
  release_stale_reservation-Safe st g s = elim (Option-cases (lookup g st.reservations)) [
    | inl e ↦ rw (e, release_stale_reservation) s
    | inr (r, e) ↦ rw (e, release_stale_reservation) (forget-Safe lib w.now st g r s)
  ]

  keep_available-Safe :
      (st : Ledger) (rs : List GameReservation)
      → Safe lib w.now st
      → Safe lib w.now (keep_available lib w st rs).0
  unfolding keep_available
  keep_available-Safe st [] s = s
  keep_available-Safe st (r ∷ rs) s = ground (
    arith,
    keep_available-Safe st rs s,
    keep_available-Safe (release_stale_reservation lib w st r.game_id) rs
        (release_stale_reservation-Safe st r.game_id s),
  )

  list_by_wallet-Safe :
      (st : Ledger) (wallet : Text)
      → Safe lib w.now st
      → Safe lib w.now (list_by_wallet lib w st wallet).0
  unfolding list_by_wallet
  list_by_wallet-Safe st wallet s = keep_available-Safe st _ s

-- A call of the use case. `ListByWallet` is one of them: it may drop reservations.
pub data Call : Type 0 where
  reserves cancels_by : ℤ → Text → Call
  joins : ℤ → Call
  lists : Text → Call
  cleans : Call

unfoldable pub step : AddressLib → World → Ledger → Call → Ledger
step lib w st (reserves g wallet) = (reserve lib w st g wallet).0
step lib w st (cancels_by g wallet) = (cancel lib w st g wallet).0
step lib w st (joins g) = (release_on_join lib w st g).0
step lib w st (lists wallet) = (list_by_wallet lib w st wallet).0
step lib w st cleans = (cleanup_expired lib w.now st).0

unfoldable pub run : AddressLib → Ledger → List (World × Call) → Ledger
run lib st [] = st
run lib st ((w, c) ∷ calls) = run lib (step lib w st c) calls

-- The clock does not go back: each call comes no earlier than the one before, the first no earlier
-- than `now`.
abbrev pub InOrder : ℕ → List (World × Call) → Type 0
InOrder now [] = Unit
InOrder now ((w, c) ∷ calls) = (now ≤ w.now) × InOrder w.now calls

-- The time of the last call.
abbrev pub last_time : ℕ → List (World × Call) → ℕ
last_time now [] = now
last_time now ((w, c) ∷ calls) = last_time w.now calls

pub step-Safe :
    (lib : AddressLib) (w : World) (st : Ledger) (c : Call)
    → Safe lib w.now st
    → Safe lib w.now (step lib w st c)
unfolding step
step-Safe lib w st (reserves g wallet) s = reserve-Safe lib w st g wallet s
step-Safe lib w st (cancels_by g wallet) s = cancel-Safe lib w st g wallet s
step-Safe lib w st (joins g) s = release_on_join-Safe lib w st g s
step-Safe lib w st (lists wallet) s = list_by_wallet-Safe lib w st wallet s
step-Safe lib w st cleans s = cleanup_expired-Safe lib w.now st s

run-Safe :
    (lib : AddressLib) (now : ℕ) (st : Ledger) (calls : List (World × Call))
    → InOrder now calls
    → Safe lib now st
    → Safe lib (last_time now calls) (run lib st calls)
unfolding run
run-Safe lib now st [] o s = s
run-Safe lib now st ((w, c) ∷ calls) o s =
    run-Safe lib w.now (step lib w st c) calls o.1 (step-Safe lib w st c (Safe-later lib o.0 s))

-- After any calls in the order of time on a new join use case, the ledger is well formed: a game has
-- one entry, under its own id, and each entry with the status `active` stands in the index of its
-- wallet; and no wallet holds more active reservations than the configured limit.
pub run_new-Safe :
    (lib : AddressLib) (broadcast : Bool) (cfg : Config) (now : ℕ) (calls : List (World × Call))
    → InOrder now calls
    → Safe lib (last_time now calls) (run lib (new_reservation_use_case broadcast cfg) calls)
unfolding new_reservation_use_case
run_new-Safe lib broadcast cfg now calls o =
    run-Safe lib now _ calls o (new_ledger-Safe lib now _ _ broadcast cfg)
