-- ===== src/Reservation/Releases.antt =====
-- Every call of the join use case but `Reserve` only ends reservations.
use pod_backend.Common.{
  ◌≡◌, refl, none, List, [], ◌∷◌, Text, ℤ, arith, int_eq, Option-cases, Outcome-cases, inl, inr,
  ◌⊎◌,
}
use pod_backend.Common.Dict.{lookup}
use pod_backend.Entity.Reservation.{GameReservation, released}
use pod_backend.Ledger.{World, Ledger, get_active}
use pod_backend.Ledger.Invariant.{Inv}
use pod_backend.Ledger.Reads.{Shrinks, close-Shrinks, forget-Shrinks}
use pod_backend.Reservation.{
  reserve, cancel, release_on_join, release_stale_reservation, keep_available, list_by_wallet,
  cleanup_expired,
}
use pod_backend.Reservation.Cleanup.{lookup-cleanup_expired}
use pod_backend.Reservation.Outcomes.{
  cancel_in_progress, reserve_ok_iff, reserve_takes, reserve-err_unchanged,
}
use pod_backend.Wallet.{AddressLib}

module _ (lib : AddressLib) (w : World) where
  -- `Reserve` leaves what a game reads as it was, or takes a game that is not being cancelled.
  pub reserve_reads :
      (st : Ledger) (g j : ℤ) (wallet : Text)
      → (get_active w.now (reserve lib w st g wallet).0 j ≡ get_active w.now st j)
        ⊎ ((g ≡ j) × (cancel_in_progress w g ≡ none))
  reserve_reads st g j wallet = elim (Outcome-cases (reserve lib w st g wallet).1) [
    | inr (e, f) ↦ inl (rw ((reserve-err_unchanged lib w st g wallet e f).0))
    | inl (r, f) ↦
        let free = ((reserve_ok_iff lib w st g wallet).0 (r, f)).not_cancelling in
        ground (arith, (reserve_takes lib w st g j wallet r f).1, free)
  ]

  pub cancel-Shrinks :
      (st : Ledger) (g : ℤ) (wallet : Text) → Shrinks w.now st (cancel lib w st g wallet).0
  unfolding cancel
  cancel-Shrinks st g wallet j h = elim (Option-cases (get_active w.now st g)) [
    | inl e ↦ rw (e, cancel) h
    | inr (r, e) ↦ ground (arith, close-Shrinks lib w.now released st g r refl j h)
  ]

  pub release_on_join-Shrinks :
      (st : Ledger) (g : ℤ) → Shrinks w.now st (release_on_join lib w st g).0
  unfolding release_on_join
  release_on_join-Shrinks st g j h = elim (Option-cases (get_active w.now st g)) [
    | inl e ↦ rw (e, release_on_join) h
    | inr (r, e) ↦ rw (e, release_on_join) (close-Shrinks lib w.now released st g r refl j h)
  ]

  release_stale_reservation-Shrinks :
      (st : Ledger) (g : ℤ) → Shrinks w.now st (release_stale_reservation lib w st g)
  unfolding release_stale_reservation
  release_stale_reservation-Shrinks st g j h = elim (Option-cases (lookup g st.reservations)) [
    | inl e ↦ rw (e, release_stale_reservation) h
    | inr (r, e) ↦ rw (e, release_stale_reservation) (forget-Shrinks lib w.now st g r j h)
  ]

  keep_available-Shrinks :
      (st : Ledger) (rs : List GameReservation) → Shrinks w.now st (keep_available lib w st rs).0
  unfolding keep_available
  keep_available-Shrinks st [] j h = h
  keep_available-Shrinks st (r ∷ rs) j h = ground (
    arith,
    keep_available-Shrinks st rs j h,
    keep_available-Shrinks (release_stale_reservation lib w st r.game_id) rs j,
    release_stale_reservation-Shrinks st r.game_id j h,
  )

  pub list_by_wallet-Shrinks :
      (st : Ledger) (wallet : Text) → Shrinks w.now st (list_by_wallet lib w st wallet).0
  unfolding list_by_wallet
  list_by_wallet-Shrinks st wallet = keep_available-Shrinks st _

  pub cleanup_expired-Shrinks :
      (st : Ledger) → Inv lib st → Shrinks w.now st (cleanup_expired lib w.now st).0
  unfolding get_active
  cleanup_expired-Shrinks st v j h = ground (arith, lookup-cleanup_expired lib w.now st j v)
