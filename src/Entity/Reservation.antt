-- ===== src/Entity/Reservation.antt =====
-- internal/entity/reservation.go. `CancelReservation`, `RevealReservation` and `ExpiredClaim` are
-- aliases of `GameReservation` in the source. The clock is an argument.
use pod_backend.Common.{
  ℕ, ◌-◌, Bool, true, false, ◌&&◌, not, Option, none, some, Text, ℤ, pos, is_empty, leb_ℤ, ltb,
  if◌then◌else◌,
}
use Prim.Native.String.{String}

-- The three constants, and any other string.
pub data ReservationStatus : Type 0 where
  active released expired : ReservationStatus
  other : Text → ReservationStatus

pub record GameReservation : Type 0 where
  pub game_id : ℤ
  pub wallet_address : Text
  pub created_at : ℕ
  pub expires_at : ℕ
  pub status : ReservationStatus

abbrev pub is_active_status : ReservationStatus → Bool
is_active_status active = true
is_active_status _ = false

is_known_status : ReservationStatus → Bool
is_known_status (other _) = false
is_known_status _ = true

unfoldable pub validate : GameReservation → Option String
unfolding is_known_status
validate r =
    if leb_ℤ r.game_id (pos 0)
    then some "game_id must be positive"
    else if is_empty r.wallet_address
    then some "wallet_address is required"
    else if not (is_known_status r.status)
    then some "invalid status"
    else none

-- `time.Now().After(r.ExpiresAt)`
unfoldable pub is_expired : ℕ → GameReservation → Bool
is_expired now r = ltb r.expires_at now

unfoldable pub is_active : ℕ → GameReservation → Bool
unfolding is_expired
is_active now r = is_active_status r.status && not (is_expired now r)

-- The duration until the reservation expires, 0 once it has.
unfoldable pub time_remaining : ℕ → GameReservation → ℕ
time_remaining now r = if ltb r.expires_at now then 0 else r.expires_at - now
