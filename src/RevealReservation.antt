-- ===== src/RevealReservation.antt =====
-- internal/usecase/reveal_reservation.go: temporary locks on the reveal phase of games, taken by a
-- participant for a whole batch of games or for none.
pub mod Batch
pub mod Safety
use pod_backend.Common.{
  ℕ, ◌+◌, ◌*◌, Bool, true, false, not, ◌||◌, Option, none, some, List, [], ◌∷◌, ◌++◌, Text, ℤ,
  eqb_ℤ, ltb, length, is_empty, Outcome, ok, err, int_eq, text_eq, if◌then◌else◌,
}
use pod_backend.Entity.Errors.{
  Error, reveal_not_available, not_a_player, too_many_reveal_reservations, reveal_already_reserved,
  reveal_reservation_not_found, not_reveal_reservation_holder,
}
use pod_backend.Entity.Game.{Game, status_waiting_for_open_bids}
use pod_backend.Entity.Reservation.{GameReservation, released}
use pod_backend.Ledger.{
  World, collect_active, is_newer, Ledger, Effect, record_created, record_cancelled,
  record_revealed, broadcast_created, broadcast_released, Config, second, new_ledger, holds_active,
  get_active, active_count, index_of, new_reservation, put, close, notify,
}
use pod_backend.Ledger.Sweep.{cleanup_deleting}
use pod_backend.Sorting.{sort_stable}
use pod_backend.Wallet.{
  AddressLib, normalize_reservation_wallet, same_reservation_wallet, is_game_participant,
}

-- `NewRevealReservationUseCase`: 90 seconds and five reservations by default.
unfoldable pub new_reveal_reservation_use_case : Bool → Config → Ledger
unfolding new_ledger
new_reveal_reservation_use_case broadcast cfg = new_ledger (90 * second) 5 broadcast cfg

-- The tests of the pre-flight loop on one game.
check_game : AddressLib → Option Game → Text → Outcome Error (Unit {0})
check_game lib none key = err reveal_not_available
check_game lib (some game) key =
    if not (eqb_ℤ game.status status_waiting_for_open_bids)
    then err reveal_not_available
    else if not (is_game_participant lib game key)
    then err not_a_player
    else ok tt

module _ (lib : AddressLib) (w : World) where
  -- The pre-flight loop: the first error among the games.
  unfoldable pub preflight : List ℤ → Text → Outcome Error (Unit {0})
  unfolding check_game
  preflight [] key = ok tt
  preflight (g ∷ gs) key = elim (w.get_by_id g) [
    | err e ↦ err e
    | ok game ↦ elim (check_game lib game key) [ err e ↦ err e | ok _ ↦ preflight gs key ]
  ]

  -- Whether one of the games is reserved.
  unfoldable pub any_active : Ledger → List ℤ → Bool
  any_active st [] = false
  any_active st (g ∷ gs) = holds_active w.now st.reservations g || any_active st gs

  -- The loop that creates the reservations; the timeout does not change in it.
  unfoldable pub put_all : Ledger → List ℤ → Text → Ledger × List GameReservation
  put_all st [] wallet = (st, [])
  put_all st (g ∷ gs) wallet =
      let r = new_reservation lib w.now st.timeout g wallet in
      let (st', created) = put_all (put lib st g r) gs wallet in (st', r ∷ created)

  announce_created : Ledger → List GameReservation → List Effect
  announce_created st [] = []
  announce_created st (r ∷ rs) =
      notify st record_created (broadcast_created r) ++ announce_created st rs

  -- The part of `ReserveBatch` under the lock, and the announcements after it.
  unfoldable pub commit :
      Ledger → List ℤ → Text → Ledger × Outcome Error (List GameReservation) × List Effect
  unfolding announce_created
  commit st gs wallet =
      let count = active_count w.now st (normalize_reservation_wallet lib wallet) in
      if ltb st.max_per_wallet (count + length gs)
      then (st, err too_many_reveal_reservations, [])
      else if any_active st gs
      then (st, err reveal_already_reserved, [])
      else (let (st', created) = put_all st gs wallet in
          (st', ok created, announce_created st created))

  -- The guards of `ReserveBatch` before the pre-flight.
  guard_batch : List ℤ → Text → Outcome Error (Unit {0})
  guard_batch [] key = err reveal_not_available
  guard_batch (g ∷ gs) key = if is_empty key then err not_a_player else preflight (g ∷ gs) key

  unfoldable pub reserve_batch :
      Ledger → List ℤ → Text → Ledger × Outcome Error (List GameReservation) × List Effect
  unfolding guard_batch
  reserve_batch st gs wallet = elim (guard_batch gs (normalize_reservation_wallet lib wallet)) [
    | err e ↦ (st, err e, [])
    | ok _ ↦ commit st gs wallet
  ]

  -- `res[0]`, if the batch has created anything.
  first_created : List GameReservation → Outcome Error GameReservation
  first_created [] = err reveal_reservation_not_found
  first_created (r ∷ rs) = ok r

  -- `Reserve`: a batch of one game.
  unfoldable pub reserve : Ledger → ℤ → Text → Ledger × Outcome Error GameReservation × List Effect
  unfolding first_created
  reserve st g wallet =
      let (st', result, effects) = reserve_batch st (g ∷ []) wallet in
      (st', elim result [ err e ↦ err e | ok created ↦ first_created created ], effects)

  -- `ListByWallet`: newest first, with no look at the games.
  unfoldable pub list_by_wallet : Ledger → Text → List GameReservation
  list_by_wallet st wallet =
      let ids = index_of (normalize_reservation_wallet lib wallet) st.wallet_reservations in
      sort_stable is_newer (collect_active w.now st.reservations ids)

  -- `Cancel`
  unfoldable pub cancel : Ledger → ℤ → Text → Ledger × Outcome Error (Unit {0}) × List Effect
  cancel st g wallet = elim (get_active w.now st g) [
    | none ↦ (st, err reveal_reservation_not_found, [])
    | some r ↦
        if same_reservation_wallet lib r.wallet_address (normalize_reservation_wallet lib wallet)
        then (
          close lib released st g r,
          ok tt,
          notify st record_cancelled (broadcast_released g "cancelled"),
        )
        else (st, err not_reveal_reservation_holder, [])
  ]

  -- `ReleaseOnTerminal`
  unfoldable pub release_on_terminal : Ledger → ℤ → Ledger × List Effect
  release_on_terminal st g = elim (get_active w.now st g) [
    | none ↦ (st, [])
    | some r ↦
        (close lib released st g r, notify st record_revealed (broadcast_released g "revealed"))
  ]

-- `cleanupExpired`
unfoldable pub cleanup_expired : AddressLib → ℕ → Ledger → Ledger × List Effect
unfolding cleanup_deleting
cleanup_expired lib now st = cleanup_deleting lib now st
