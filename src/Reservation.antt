-- ===== src/Reservation.antt =====
-- internal/usecase/reservation.go: one temporary lock on a waiting game, for the player who joins it.
pub mod Cleanup
pub mod History
pub mod Outcomes
pub mod Tenure
pub mod Releases
pub mod StaleIndex
use pod_backend.Common.{
  ℕ, ◌*◌, Bool, true, false, not, ◌&&◌, Option, none, some, List, [], ◌∷◌, ◌++◌, map, Text, ℤ,
  eqb_ℤ, ltb, leb, Outcome, ok, err, int_eq, text_eq, if◌then◌else◌,
}
use pod_backend.Common.Dict.{Dict, lookup, delete}
use pod_backend.Entity.Errors.{
  Error, game_not_available, cannot_reserve_own_game, game_cancellation_pending,
  game_already_reserved, too_many_reservations, reservation_not_found, not_reservation_holder,
}
use pod_backend.Entity.Game.{Game, status_waiting_for_opponent}
use pod_backend.Entity.Repository.{GetById}
use pod_backend.Entity.Reservation.{
  GameReservation, released, expired, is_active, is_expired, is_active_status,
}
use pod_backend.Ledger.{
  World, peer_holds, collect_active, is_newer, Ledger, Effect, record_created, record_cancelled,
  record_joined, record_expired, broadcast_created, broadcast_released, Config, second, new_ledger,
  holds_active, get_active, active_count, index_of, new_reservation, put, close, forget, notify,
  notify_error,
}
use pod_backend.Sorting.{sort_stable}
use pod_backend.Wallet.{AddressLib, normalize_reservation_wallet, same_reservation_wallet}

-- `NewReservationUseCase`: 60 seconds and three reservations by default.
unfoldable pub new_reservation_use_case : Bool → Config → Ledger
unfolding new_ledger
new_reservation_use_case broadcast cfg = new_ledger (60 * second) 3 broadcast cfg

game_is_waiting : Option Game → Bool
game_is_waiting none = false
game_is_waiting (some game) = eqb_ℤ game.status status_waiting_for_opponent

-- `isReservationGameAvailable`
unfoldable pub is_reservation_game_available : Bool → GetById → ℤ → Outcome Error Bool
unfolding game_is_waiting
is_reservation_game_available repo_set get_by_id g =
    if repo_set
    then elim (get_by_id g) [ err e ↦ err e | ok game ↦ ok (game_is_waiting game) ]
    else ok true

-- The tests of `Reserve` on the game itself.
check_game : AddressLib → Option Game → Text → Outcome Error (Unit {0})
check_game lib none key = err game_not_available
check_game lib (some game) key =
    if not (eqb_ℤ game.status status_waiting_for_opponent)
    then err game_not_available
    else if same_reservation_wallet lib game.player_one_address key
    then err cannot_reserve_own_game
    else ok tt

module _ (lib : AddressLib) (w : World) where
  -- The part of `Reserve` before the lock is taken.
  unfoldable pub admit : Ledger → ℤ → Text → Outcome Error (Unit {0}) × List Effect
  unfolding check_game
  admit st g wallet = elim (w.get_by_id g) [
    | err e ↦ (err e, [])
    | ok game ↦ elim (check_game lib game (normalize_reservation_wallet lib wallet)) [
      | err e ↦ (err e, [])
      | ok _ ↦
          if peer_holds w.now w.peer g
          then (err game_cancellation_pending, notify_error st "cancel_pending")
          else (ok tt, [])
    ]
  ]

  -- The part of `Reserve` under the lock, and the announcements after it.
  unfoldable pub commit : Ledger → ℤ → Text → Ledger × Outcome Error GameReservation × List Effect
  commit st g wallet =
      if holds_active w.now st.reservations g
      then (st, err game_already_reserved, [])
      else if leb st.max_per_wallet
          (active_count w.now st (normalize_reservation_wallet lib wallet))
      then (st, err too_many_reservations, [])
      else (let r = new_reservation lib w.now st.timeout g wallet in
          (put lib st g r, ok r, notify st record_created (broadcast_created r)))

  unfoldable pub reserve : Ledger → ℤ → Text → Ledger × Outcome Error GameReservation × List Effect
  reserve st g wallet =
      let (outcome, effects) = admit st g wallet in
      elim outcome [ err e ↦ (st, err e, effects) | ok _ ↦ commit st g wallet ]

  -- `Cancel`
  unfoldable pub cancel : Ledger → ℤ → Text → Ledger × Outcome Error (Unit {0}) × List Effect
  cancel st g wallet = elim (get_active w.now st g) [
    | none ↦ (st, err reservation_not_found, [])
    | some r ↦
        if same_reservation_wallet lib r.wallet_address (normalize_reservation_wallet lib wallet)
        then (
          close lib released st g r,
          ok tt,
          notify st record_cancelled (broadcast_released g "cancelled"),
        )
        else (st, err not_reservation_holder, [])
  ]

  -- `ReleaseOnJoin`
  unfoldable pub release_on_join : Ledger → ℤ → Ledger × List Effect
  release_on_join st g = elim (get_active w.now st g) [
    | none ↦ (st, [])
    | some r ↦ (close lib released st g r, notify st record_joined (broadcast_released g "joined"))
  ]

  -- `releaseStaleReservation`
  unfoldable pub release_stale_reservation : Ledger → ℤ → Ledger
  release_stale_reservation st g = elim (lookup g st.reservations) [
    | none ↦ st
    | some r ↦ forget lib st g r
  ]

  -- The loop of `ListByWallet` that drops the reservations of games that are no longer available.
  unfoldable pub keep_available :
      Ledger → List GameReservation → Ledger × Outcome Error (List GameReservation)
  keep_available st [] = (st, ok [])
  keep_available st (r ∷ rs) =
      elim (is_reservation_game_available w.repo_set w.get_by_id r.game_id) [
        | err e ↦ (st, err e)
        | ok available ↦ elim available [
          | false ↦ keep_available (release_stale_reservation st r.game_id) rs
          | true ↦
              let (st', rest) = keep_available st rs in
              (st', elim rest [ err e ↦ err e | ok l ↦ ok (r ∷ l) ])
        ]
      ]

  -- `ListByWallet`: newest first.
  unfoldable pub list_by_wallet : Ledger → Text → Ledger × Outcome Error (List GameReservation)
  list_by_wallet st wallet =
      let ids = index_of (normalize_reservation_wallet lib wallet) st.wallet_reservations in
      let (st', found) = keep_available st (collect_active w.now st.reservations ids) in
      (st', elim found [ err e ↦ err e | ok l ↦ ok (sort_stable is_newer l) ])

-- What the loop of `CleanupExpired` has gathered.
pub record Sweep : Type 0 where
  pub ledger : Ledger
  pub expired_games : List ℤ
  pub stale : List ℤ

module _ (lib : AddressLib) (now : ℕ) where
  expire : Sweep → ℤ → GameReservation → Sweep
  expire sw g r = record sw {
    ledger = close lib expired sw.ledger g r;
    expired_games = sw.expired_games ++ g ∷ [];
  }

  -- One round of the loop. The second test reads the status that the first branch has written.
  unfoldable pub visit : Sweep → ℤ → GameReservation → Sweep
  unfolding expire
  visit sw g r =
      if is_active_status r.status && is_expired now r
      then (let sw' = expire sw g r in
          if not (is_active now (record r { status = expired }))
          then record sw' { stale = sw'.stale ++ g ∷ [] }
          else sw')
      else if not (is_active now r)
      then record sw { stale = sw.stale ++ g ∷ [] }
      else sw

  unfoldable pub sweep : Sweep → Dict ℤ GameReservation → Sweep
  sweep sw [] = sw
  sweep sw ((g, r) ∷ m) = sweep (visit sw g r) m

unfoldable pub delete_all : Ledger → List ℤ → Ledger
delete_all st [] = st
delete_all st (g ∷ gs) = delete_all (record st { reservations = delete g st.reservations }) gs

announce_expired : Ledger → List ℤ → List Effect
announce_expired st [] = []
announce_expired st (g ∷ gs) =
    (if st.broadcast then broadcast_released g "expired" ∷ [] else [])
    ++ ((if st.metrics then record_expired ∷ [] else []) ++ announce_expired st gs)

-- `CleanupExpired`. The order of the entries is the order in which `range` happens to visit them.
unfoldable pub cleanup_expired : AddressLib → ℕ → Ledger → Ledger × List Effect
unfolding announce_expired
cleanup_expired lib now st =
    let sw =
      sweep lib now (record { ledger = st; expired_games = []; stale = [] }) st.reservations in
    (delete_all sw.ledger sw.stale, announce_expired st sw.expired_games)
