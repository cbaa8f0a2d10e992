-- ===== src/ExpiredClaim.antt =====
-- internal/usecase/expired_claim.go: temporary claims on the follow-up of games that have ended.
pub mod Safety
pub mod Lookups
use pod_backend.Common.{
  ℕ, ◌*◌, Bool, true, false, not, ◌||◌, Option, none, some, List, [], ◌∷◌, ◌++◌, Text, ℤ, eqb_ℤ,
  leb, is_empty, Outcome, ok, err, int_eq, text_eq, if◌then◌else◌,
}
use pod_backend.Entity.Errors.{
  Error, expired_claim_wallet_required, expired_claim_not_available, not_expired_claim_participant,
  expired_claim_already_claimed, too_many_expired_claims, expired_claim_not_found,
  not_expired_claim_holder,
}
use pod_backend.Entity.Game.{Game, status_ended}
use pod_backend.Entity.Repository.{GetById}
use pod_backend.Entity.Reservation.{GameReservation, released}
use pod_backend.Ledger.{
  World, collect_active, is_newer, Ledger, Effect, record_created, record_cancelled,
  record_resolved, broadcast_created, broadcast_released, Config, second, new_ledger, get_active,
  active_count, index_of, new_reservation, put, close, notify,
}
use pod_backend.Ledger.Sweep.{cleanup_deleting}
use pod_backend.Sorting.{sort_stable}
use pod_backend.Wallet.{
  AddressLib, normalize_reservation_wallet, same_reservation_wallet, is_game_participant,
}

-- `NewExpiredClaimUseCase`: 120 seconds and five claims by default.
unfoldable pub new_expired_claim_use_case : Bool → Config → Ledger
unfolding new_ledger
new_expired_claim_use_case broadcast cfg = new_ledger (120 * second) 5 broadcast cfg

game_has_ended : Option Game → Bool
game_has_ended none = false
game_has_ended (some game) = eqb_ℤ game.status status_ended

-- `isClaimGameActionable`
unfoldable pub is_claim_game_actionable : Bool → GetById → ℤ → Outcome Error Bool
unfolding game_has_ended
is_claim_game_actionable repo_set get_by_id g =
    if repo_set
    then elim (get_by_id g) [ err e ↦ err e | ok game ↦ ok (game_has_ended game) ]
    else ok true

-- The tests of `Claim` on the game itself.
check_game : AddressLib → Option Game → Text → Outcome Error (Unit {0})
check_game lib none key = err expired_claim_not_available
check_game lib (some game) key =
    if not (eqb_ℤ game.status status_ended)
    then err expired_claim_not_available
    else if not (is_game_participant lib game key)
    then err not_expired_claim_participant
    else ok tt

module _ (lib : AddressLib) (w : World) where
  -- The part of `Claim` under the lock: an active claim of the same wallet is returned as it is.
  unfoldable pub commit : Ledger → ℤ → Text → Ledger × Outcome Error GameReservation × List Effect
  commit st g wallet =
      let key = normalize_reservation_wallet lib wallet in
      elim (get_active w.now st g) [
        | some existing ↦
            if same_reservation_wallet lib existing.wallet_address key
            then (st, ok existing, [])
            else (st, err expired_claim_already_claimed, [])
        | none ↦
            if leb st.max_per_wallet (active_count w.now st key)
            then (st, err too_many_expired_claims, [])
            else (let r = new_reservation lib w.now st.timeout g wallet in
                (put lib st g r, ok r, notify st record_created (broadcast_created r)))
      ]

  -- The part of `Claim` before the lock is taken.
  unfoldable pub admit : ℤ → Text → Outcome Error (Unit {0})
  unfolding check_game
  admit g key =
      if is_empty key
      then err expired_claim_wallet_required
      else elim (w.get_by_id g) [ err e ↦ err e | ok game ↦ check_game lib game key ]

  unfoldable pub claim : Ledger → ℤ → Text → Ledger × Outcome Error GameReservation × List Effect
  claim st g wallet = elim (admit g (normalize_reservation_wallet lib wallet)) [
    | err e ↦ (st, err e, [])
    | ok _ ↦ commit st g wallet
  ]

  -- `ReleaseOnResolved`, by `releaseWithReason`.
  unfoldable pub release_on_resolved : Ledger → ℤ → Ledger × List Effect
  release_on_resolved st g = elim (get_active w.now st g) [
    | none ↦ (st, [])
    | some r ↦
        (close lib released st g r, notify st record_resolved (broadcast_released g "resolved"))
  ]

  -- `Get`: the active claim, released if its game is no longer actionable.
  unfoldable pub get : Ledger → ℤ → Ledger × Outcome Error (Option GameReservation) × List Effect
  get st g = elim (get_active w.now st g) [
    | none ↦ (st, ok none, [])
    | some r ↦ elim (is_claim_game_actionable w.repo_set w.get_by_id g) [
      | err e ↦ (st, err e, [])
      | ok actionable ↦
          if actionable
          then (st, ok (some r), [])
          else (let (st', effects) = release_on_resolved st g in (st', ok none, effects))
    ]
  ]

  -- The loop of `ListByWallet` that releases the claims of games that are no longer actionable.
  unfoldable pub keep_actionable :
      Ledger → List GameReservation → Ledger × Outcome Error (List GameReservation) × List Effect
  keep_actionable st [] = (st, ok [], [])
  keep_actionable st (r ∷ rs) = elim (is_claim_game_actionable w.repo_set w.get_by_id r.game_id) [
    | err e ↦ (st, err e, [])
    | ok actionable ↦ elim actionable [
      | false ↦
          let (st', effects) = release_on_resolved st r.game_id in
          let (st'', rest, more) = keep_actionable st' rs in (st'', rest, effects ++ more)
      | true ↦
          let (st', rest, effects) = keep_actionable st rs in
          (st', elim rest [ err e ↦ err e | ok l ↦ ok (r ∷ l) ], effects)
    ]
  ]

  -- `ListByWallet`: newest first; an empty wallet has no claims.
  unfoldable pub list_by_wallet :
      Ledger → Text → Ledger × Outcome Error (List GameReservation) × List Effect
  list_by_wallet st wallet =
      let key = normalize_reservation_wallet lib wallet in
      if is_empty key
      then (st, ok [], [])
      else (let ids = index_of key st.wallet_reservations in
          let (st', found, effects) =
            keep_actionable st (collect_active w.now st.reservations ids) in
          (st', elim found [ err e ↦ err e | ok l ↦ ok (sort_stable is_newer l) ], effects))

  -- `Release`
  unfoldable pub release : Ledger → ℤ → Text → Ledger × Outcome Error (Unit {0}) × List Effect
  release st g wallet =
      let key = normalize_reservation_wallet lib wallet in
      if is_empty key
      then (st, err expired_claim_wallet_required, [])
      else elim (get_active w.now st g) [
        | none ↦ (st, err expired_claim_not_found, [])
        | some r ↦
            if same_reservation_wallet lib r.wallet_address key
            then (
              close lib released st g r,
              ok tt,
              notify st record_cancelled (broadcast_released g "cancelled"),
            )
            else (st, err not_expired_claim_holder, [])
      ]

-- `CleanupExpired`
unfoldable pub cleanup_expired : AddressLib → ℕ → Ledger → Ledger × List Effect
unfolding cleanup_deleting
cleanup_expired lib now st = cleanup_deleting lib now st
