-- ===== src/CancelReservation/Releases.antt =====
-- Every call of the cancel use case but `Reserve` only ends reservations.
use pod_backend.Common.{
  ℕ, ◌≡◌, false, List, [], ◌∷◌, Text, ℤ, arith, int_eq, Option-cases, inl, inr, ◌⊎◌,
}
use pod_backend.Common.Dict.{Dict, lookup}
use pod_backend.Entity.Reservation.{GameReservation}
use pod_backend.Ledger.{World, Ledger, get_active, peer_holds, new_reservation}
use pod_backend.Ledger.Reads.{Shrinks, forget-Shrinks, get_active-put, new_reservation-is_active}
use pod_backend.Ledger.Sweep.{Swept}
use pod_backend.CancelReservation.{
  check_game, admit, commit, reserve, cancel, release_on_unavailable, release_stale_reservation,
  keep_available, list_by_wallet, visit, sweep, cleanup_expired,
}
use pod_backend.Wallet.{AddressLib}
use Prim.Native.String.{String}

module _ (lib : AddressLib) (w : World) where
  -- `Reserve` leaves what a game reads as it was, or takes a game that nobody is joining.
  pub reserve_reads :
      (st : Ledger) (g j : ℤ) (wallet : Text)
      → (get_active w.now (reserve lib w st g wallet).0 j ≡ get_active w.now st j)
        ⊎ ((g ≡ j) × (peer_holds w.now w.peer g ≡ false))
  unfolding reserve admit check_game commit
  reserve_reads st g j wallet =
      let r = new_reservation lib w.now st.timeout g wallet in
      ground (
        arith,
        get_active-put lib w.now st g j r (new_reservation-is_active lib w.now st.timeout g wallet),
      )

  pub cancel-Shrinks :
      (st : Ledger) (g : ℤ) (wallet : Text) → Shrinks w.now st (cancel lib w st g wallet).0
  unfolding cancel
  cancel-Shrinks st g wallet j h = elim (Option-cases (get_active w.now st g)) [
    | inl e ↦ rw (e, cancel) h
    | inr (r, e) ↦ ground (arith, forget-Shrinks lib w.now st g r j h)
  ]

  pub release_on_unavailable-Shrinks :
      (st : Ledger) (g : ℤ) (reason : String)
      → Shrinks w.now st (release_on_unavailable lib w st g reason).0
  unfolding release_on_unavailable
  release_on_unavailable-Shrinks st g reason j h = elim (Option-cases (get_active w.now st g)) [
    | inl e ↦ rw (e, release_on_unavailable) h
    | inr (r, e) ↦ rw (e, release_on_unavailable) (forget-Shrinks lib w.now st g r j h)
  ]

  release_stale_reservation-Shrinks :
      (st : Ledger) (g : ℤ) (reason : String)
      → Shrinks w.now st (release_stale_reservation lib w st g reason).0
  unfolding release_stale_reservation
  release_stale_reservation-Shrinks st g reason j h =
      elim (Option-cases (lookup g st.reservations)) [
        | inl e ↦ rw (e, release_stale_reservation) h
        | inr (r, e) ↦ rw (e, release_stale_reservation) (forget-Shrinks lib w.now st g r j h)
      ]

  keep_available-Shrinks :
      (st : Ledger) (rs : List GameReservation) → Shrinks w.now st (keep_available lib w st rs).0
  unfolding keep_available
  keep_available-Shrinks st [] j h = h
  keep_available-Shrinks st (r ∷ rs) j h = ground (
    arith,
    keep_available-Shrinks st rs j h,
    keep_available-Shrinks (release_stale_reservation lib w st r.game_id "resolved").0 rs j,
    release_stale_reservation-Shrinks st r.game_id "resolved" j h,
  )

  pub list_by_wallet-Shrinks :
      (st : Ledger) (wallet : Text) → Shrinks w.now st (list_by_wallet lib w st wallet).0
  unfolding list_by_wallet
  list_by_wallet-Shrinks st wallet = keep_available-Shrinks st _

module _ (lib : AddressLib) (now : ℕ) where
  sweep-Shrinks :
      (sw : Swept) (m : Dict ℤ GameReservation) → Shrinks now sw.ledger (sweep lib now sw m).ledger
  unfolding sweep visit
  sweep-Shrinks sw [] j h = h
  sweep-Shrinks sw ((g, r) ∷ m) j h =
      sweep-Shrinks (visit lib now sw g r) m j
        (ground (arith, forget-Shrinks lib now sw.ledger g r j h))

  pub cleanup_expired-Shrinks : (st : Ledger) → Shrinks now st (cleanup_expired lib now st).0
  unfolding cleanup_expired
  cleanup_expired-Shrinks st = sweep-Shrinks _ st.reservations
