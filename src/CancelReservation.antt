-- ===== src/CancelReservation.antt =====
-- internal/usecase/cancel_reservation.go: a temporary lock on a waiting game, for its creator who
-- cancels it. Closed reservations are deleted at once.
pub mod Safety
pub mod Releases
use pod_backend.Common.{
  ℕ, ◌*◌, Bool, true, false, not, ◌&&◌, Option, none, some, List, [], ◌∷◌, ◌++◌, Text, ℤ, eqb_ℤ,
  leb, Outcome, ok, err, int_eq, text_eq, if◌then◌else◌,
}
use pod_backend.Common.Dict.{Dict, lookup}
use pod_backend.Entity.Errors.{
  Error, cancel_not_available, not_game_creator, game_already_reserved, cancel_already_reserved,
  too_many_cancel_reservations, cancel_reservation_not_found, not_cancel_reservation_holder,
}
use pod_backend.Entity.Game.{Game, status_waiting_for_opponent}
use pod_backend.Entity.Repository.{GetById}
use pod_backend.Entity.Reservation.{GameReservation, is_expired, is_active_status}
use pod_backend.Ledger.{
  World, peer_holds, collect_active, is_newer, Ledger, Effect, record_created, record_cancelled,
  record_resolved, record_expired, broadcast_created, broadcast_released, Config, second,
  new_ledger, holds_active, get_active, active_count, index_of, new_reservation, put, forget,
  notify, notify_error,
}
use pod_backend.Ledger.Sweep.{Swept, announce_expired}
use pod_backend.Sorting.{sort_stable}
use pod_backend.Wallet.{AddressLib, normalize_reservation_wallet, same_reservation_wallet}
use Prim.Native.String.{String}

-- `NewCancelReservationUseCase`: 60 seconds and three reservations by default.
unfoldable pub new_cancel_reservation_use_case : Bool → Config → Ledger
unfolding new_ledger
new_cancel_reservation_use_case broadcast cfg = new_ledger (60 * second) 3 broadcast cfg

game_is_waiting : Option Game → Bool
game_is_waiting none = false
game_is_waiting (some game) = eqb_ℤ game.status status_waiting_for_opponent

-- `isCancelableGameAvailable`
unfoldable pub is_cancelable_game_available : Bool → GetById → ℤ → Outcome Error Bool
unfolding game_is_waiting
is_cancelable_game_available repo_set get_by_id g =
    if repo_set
    then elim (get_by_id g) [ err e ↦ err e | ok game ↦ ok (game_is_waiting game) ]
    else ok true

-- The tests of `Reserve` on the game itself; each error goes with the label of its counter.
check_game : AddressLib → Option Game → Text → Outcome (Error × String) (Unit {0})
check_game lib none key = err (cancel_not_available, "cancel_not_available")
check_game lib (some game) key =
    if not (eqb_ℤ game.status status_waiting_for_opponent)
    then err (cancel_not_available, "cancel_not_available")
    else if not (same_reservation_wallet lib game.player_one_address key)
    then err (not_game_creator, "not_game_creator")
    else ok tt

-- `if reason == "" { reason = "resolved" }`
reason_or_resolved : String → String
reason_or_resolved String.[] = "resolved"
reason_or_resolved (String.◌∷◌ c s) = String.◌∷◌ c s

module _ (lib : AddressLib) (w : World) where
  -- The part of `Reserve` before the lock is taken.
  unfoldable pub admit : Ledger → ℤ → Text → Outcome Error (Unit {0}) × List Effect
  unfolding check_game
  admit st g wallet = elim (w.get_by_id g) [
    | err e ↦ (err e, [])
    | ok game ↦ elim (check_game lib game (normalize_reservation_wallet lib wallet)) [
      | err e ↦ (err e.0, notify_error st e.1)
      | ok _ ↦
          if peer_holds w.now w.peer g
          then (err game_already_reserved, notify_error st "join_conflict")
          else (ok tt, [])
    ]
  ]

  -- The part of `Reserve` under the lock.
  unfoldable pub commit : Ledger → ℤ → Text → Ledger × Outcome Error GameReservation × List Effect
  commit st g wallet =
      if holds_active w.now st.reservations g
      then (st, err cancel_already_reserved, notify_error st "already_reserved")
      else if leb st.max_per_wallet
          (active_count w.now st (normalize_reservation_wallet lib wallet))
      then (st, err too_many_cancel_reservations, notify_error st "too_many_reservations")
      else (let r = new_reservation lib w.now st.timeout g wallet in
          (put lib st g r, ok r, notify st record_created (broadcast_created r)))

  unfoldable pub reserve : Ledger → ℤ → Text → Ledger × Outcome Error GameReservation × List Effect
  reserve st g wallet =
      let (outcome, effects) = admit st g wallet in
      elim outcome [ err e ↦ (st, err e, effects) | ok _ ↦ commit st g wallet ]

  -- `Cancel`
  unfoldable pub cancel : Ledger → ℤ → Text → Ledger × Outcome Error (Unit {0}) × List Effect
  cancel st g wallet = elim (get_active w.now st g) [
    | none ↦ (st, err cancel_reservation_not_found, notify_error st "not_found")
    | some r ↦
        if same_reservation_wallet lib r.wallet_address (normalize_reservation_wallet lib wallet)
        then (
          forget lib st g r,
          ok tt,
          notify st record_cancelled (broadcast_released g "cancelled"),
        )
        else (st, err not_cancel_reservation_holder, notify_error st "not_holder")
  ]

  -- `ReleaseOnUnavailable`
  unfoldable pub release_on_unavailable : Ledger → ℤ → String → Ledger × List Effect
  unfolding reason_or_resolved
  release_on_unavailable st g reason = elim (get_active w.now st g) [
    | none ↦ (st, [])
    | some r ↦ (
      forget lib st g r,
      notify st record_resolved (broadcast_released g (reason_or_resolved reason)),
    )
  ]

  -- `releaseStaleReservation`
  unfoldable pub release_stale_reservation : Ledger → ℤ → String → Ledger × List Effect
  release_stale_reservation st g reason = elim (lookup g st.reservations) [
    | none ↦ (st, [])
    | some r ↦ (forget lib st g r, notify st record_resolved (broadcast_released g reason))
  ]

  -- The loop of `ListByWallet` that drops the reservations of games that no longer wait.
  unfoldable pub keep_available :
      Ledger → List GameReservation → Ledger × Outcome Error (List GameReservation) × List Effect
  keep_available st [] = (st, ok [], [])
  keep_available st (r ∷ rs) =
      elim (is_cancelable_game_available w.repo_set w.get_by_id r.game_id) [
        | err e ↦ (st, err e, [])
        | ok available ↦ elim available [
          | false ↦
              let (st', effects) = release_stale_reservation st r.game_id "resolved" in
              let (st'', rest, more) = keep_available st' rs in (st'', rest, effects ++ more)
          | true ↦
              let (st', rest, effects) = keep_available st rs in
              (st', elim rest [ err e ↦ err e | ok l ↦ ok (r ∷ l) ], effects)
        ]
      ]

  -- `ListByWallet`: newest first.
  unfoldable pub list_by_wallet :
      Ledger → Text → Ledger × Outcome Error (List GameReservation) × List Effect
  list_by_wallet st wallet =
      let ids = index_of (normalize_reservation_wallet lib wallet) st.wallet_reservations in
      let (st', found, effects) = keep_available st (collect_active w.now st.reservations ids) in
      (st', elim found [ err e ↦ err e | ok l ↦ ok (sort_stable is_newer l) ], effects)

module _ (lib : AddressLib) (now : ℕ) where
  -- One round of the loop of `CleanupExpired`.
  unfoldable pub visit : Swept → ℤ → GameReservation → Swept
  visit sw g r =
      if is_active_status r.status && is_expired now r
      then record { ledger = forget lib sw.ledger g r; expired_games = sw.expired_games ++ g ∷ [] }
      else sw

  unfoldable pub sweep : Swept → Dict ℤ GameReservation → Swept
  sweep sw [] = sw
  sweep sw ((g, r) ∷ m) = sweep (visit sw g r) m

-- `CleanupExpired`
unfoldable pub cleanup_expired : AddressLib → ℕ → Ledger → Ledger × List Effect
cleanup_expired lib now st =
    let sw = sweep lib now (record { ledger = st; expired_games = [] }) st.reservations in
    (sw.ledger, announce_expired st sw.expired_games)
