-- ===== src/CancelReservation/Safety.antt =====
-- Histories of calls on the cancel use case.
use pod_backend.Common.{ℕ, refl, List, [], ◌∷◌, Text, ℤ, arith, int_eq, Option-cases, inl, inr}
use pod_backend.Common.Dict.{Dict, lookup}
use pod_backend.Entity.Reservation.{GameReservation}
use pod_backend.Ledger.{World, Ledger, get_active, new_reservation}
use pod_backend.Ledger.Limit.{Safe, put-Safe, forget-Safe}
use pod_backend.Ledger.Sweep.{Swept}
use pod_backend.CancelReservation.{
  commit, reserve, cancel, release_on_unavailable, release_stale_reservation, keep_available,
  list_by_wallet, visit, sweep, cleanup_expired,
}
use pod_backend.Wallet.{AddressLib}
use Prim.Native.String.{String}

module _ (lib : AddressLib) (w : World) where
  reserve-Safe :
      (st : Ledger) (g : ℤ) (wallet : Text)
      → Safe lib w.now st
      → Safe lib w.now (reserve lib w st g wallet).0
  unfolding reserve commit new_reservation
  reserve-Safe st g wallet s =
      ground (arith, put-Safe lib w.now st g (new_reservation lib w.now st.timeout g wallet) refl)

  -- The three ways to release a reservation delete it, or change nothing.
  cancel-Safe :
      (st : Ledger) (g : ℤ) (wallet : Text)
      → Safe lib w.now st
      → Safe lib w.now (cancel lib w st g wallet).0
  unfolding cancel
  cancel-Safe st g wallet s = elim (Option-cases (get_active w.now st g)) [
    | inl e ↦ rw (e, cancel) s
    | inr (r, e) ↦ ground (arith, forget-Safe lib w.now st g r s)
  ]

  release_on_unavailable-Safe :
      (st : Ledger) (g : ℤ) (reason : String)
      → Safe lib w.now st
      → Safe lib w.now (release_on_unavailable lib w st g reason).0
  unfolding release_on_unavailable
  release_on_unavailable-Safe st g reason s = elim (Option-cases (get_active w.now st g)) [
    | inl e ↦ rw (e, release_on_unavailable) s
    | inr (r, e) ↦ rw (e, release_on_unavailable) (forget-Safe lib w.now st g r s)
  ]

  release_stale_reservation-Safe :
      (st : Ledger) (g : ℤ) (reason : String)
      → Safe lib w.now st
      → Safe lib w.now (release_stale_reservation lib w st g reason).0
  unfolding release_stale_reservation
  release_stale_reservation-Safe st g reason s = elim (Option-cases (lookup g st.reservations)) [
    | inl e ↦ rw (e, release_stale_reservation) s
    | inr (r, e) ↦ rw (e, release_stale_reservation) (forget-Safe lib w.now st g r s)
  ]

  keep_available-Safe :
      (st : Ledger) (rs : List GameReservation)
      → Safe lib w.now st
      → Safe lib w.now (keep_available lib w st rs).0
  unfolding keep_available
  keep_available-Safe st [] s = s
  keep_available-Safe st (r ∷ rs) s = ground (
    arith,
    keep_available-Safe st rs s,
    keep_available-Safe (release_stale_reservation lib w st r.game_id "resolved").0 rs
        (release_stale_reservation-Safe st r.game_id "resolved" s),
  )

  list_by_wallet-Safe :
      (st : Ledger) (wallet : Text)
      → Safe lib w.now st
      → Safe lib w.now (list_by_wallet lib w st wallet).0
  unfolding list_by_wallet
  list_by_wallet-Safe st wallet s = keep_available-Safe st _ s

module _ (lib : AddressLib) (now : ℕ) where
  sweep-Safe :
      (sw : Swept) (m : Dict ℤ GameReservation)
      → Safe lib now sw.ledger
      → Safe lib now (sweep lib now sw m).ledger
  unfolding sweep visit
  sweep-Safe sw [] s = s
  sweep-Safe sw ((g, r) ∷ m) s =
      sweep-Safe (visit lib now sw g r) m (ground (arith, forget-Safe lib now sw.ledger g r s))

  cleanup_expired-Safe :
      (st : Ledger) → Safe lib now st → Safe lib now (cleanup_expired lib now st).0
  unfolding cleanup_expired
  cleanup_expired-Safe st s = sweep-Safe _ st.reservations s

pub data Call : Type 0 where
  reserves cancels_by : ℤ → Text → Call
  releases : ℤ → String → Call
  lists : Text → Call
  cleans : Call

unfoldable pub step : AddressLib → World → Ledger → Call → Ledger
step lib w st (reserves g wallet) = (reserve lib w st g wallet).0
step lib w st (cancels_by g wallet) = (cancel lib w st g wallet).0
step lib w st (releases g reason) = (release_on_unavailable lib w st g reason).0
step lib w st (lists wallet) = (list_by_wallet lib w st wallet).0
step lib w st cleans = (cleanup_expired lib w.now st).0

pub step-Safe :
    (lib : AddressLib) (w : World) (st : Ledger) (c : Call)
    → Safe lib w.now st
    → Safe lib w.now (step lib w st c)
unfolding step
step-Safe lib w st (reserves g wallet) s = reserve-Safe lib w st g wallet s
step-Safe lib w st (cancels_by g wallet) s = cancel-Safe lib w st g wallet s
step-Safe lib w st (releases g reason) s = release_on_unavailable-Safe lib w st g reason s
step-Safe lib w st (lists wallet) s = list_by_wallet-Safe lib w st wallet s
step-Safe lib w st cleans s = cleanup_expired-Safe lib w.now st s
