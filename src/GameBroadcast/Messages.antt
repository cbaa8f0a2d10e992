-- ===== src/GameBroadcast/Messages.antt =====
-- The messages of game_broadcast.go and the calls that send them. The JSON text of a message, with its
-- instants as text, is an argument.
use Prim.Native.String.{String}
use pod_backend.Common.{ℕ, Option, none, List, [], ◌++◌, Text, ℤ, Outcome, ok, err, if◌then◌else◌}
use pod_backend.Database.{Fault, message, wrapped}
use pod_backend.Entity.Game.{Game}
use pod_backend.Entity.Reservation.{GameReservation}
use pod_backend.GameBroadcast.{
  Broadcaster, SocketCall, is_empty_list, Wire, snapshot_subscribers, broadcast_serialized_message,
  cleanup_failed_connections,
}
use pod_backend.GamePersistence.{GameEventType}

-- `ReservationCreatedEvent`, and the three like it.
pub record CreatedEvent : Type 0 where
  pub created_type : String
  pub created_timestamp : ℕ
  pub created_game_id : ℤ
  pub reserved_by : Text
  pub reserved_until : ℕ

-- `ReservationReleasedEvent`, and the three like it.
pub record ReleasedEvent : Type 0 where
  pub released_type : String
  pub released_timestamp : ℕ
  pub released_game_id : ℤ
  pub reason : String

-- `GameStateUpdateEvent`; the type of the event may be left out.
pub record GameStateUpdateEvent : Type 0 where
  pub update_type : String
  pub update_timestamp : ℕ
  pub update_event_type : Option GameEventType
  pub update_data : Game

pub data Message : Type 0 where
  created_message : CreatedEvent → Message
  released_message : ReleasedEvent → Message
  update_message : GameStateUpdateEvent → Message

-- What a call takes from outside: the time, `json.Marshal`, and the connections.
pub record Line : Type 0 where
  pub now : ℕ
  pub marshal : Message → Outcome String Text
  pub wire : Wire

abbrev pub Broadcast : Type 0
Broadcast = Broadcaster → Outcome Fault (Unit {0}) × Broadcaster × List SocketCall

module _ (line : Line) where
  -- `broadcastEvent`, and `BroadcastGameUpdateWithEvent` from the event on, with their own context.
  unfoldable pub broadcast_event : String → ℤ → Message → Broadcast
  broadcast_event context g event b =
      let (all, globals) = snapshot_subscribers g b in
      if is_empty_list all then (ok tt, b, []) else elim (line.marshal event) [
        | err m ↦ (err (wrapped context (message m)), b, [])
        | ok text ↦
            let (calls, failed_game, failed_global) =
              broadcast_serialized_message line.wire text globals all in
            let (b', closes) = cleanup_failed_connections g failed_game failed_global b in
            (ok tt, b', calls ++ closes)
      ]

  -- `BroadcastGameUpdateWithEvent`
  unfoldable pub broadcast_game_update_with_event : Game → Option GameEventType → Broadcast
  broadcast_game_update_with_event game kind =
      broadcast_event "failed to serialize game update" game.game_id (
        update_message (record {
          update_type = "game_state_update";
          update_timestamp = line.now;
          update_event_type = kind;
          update_data = game;
        }))

  -- `BroadcastGameUpdate`
  unfoldable pub broadcast_game_update_only : Game → Broadcast
  broadcast_game_update_only game = broadcast_game_update_with_event game none

  announce_created : String → GameReservation → Broadcast
  announce_created kind r = broadcast_event "failed to serialize event" r.game_id (
      created_message (record {
        created_type = kind;
        created_timestamp = line.now;
        created_game_id = r.game_id;
        reserved_by = r.wallet_address;
        reserved_until = r.expires_at;
      }))

  announce_released : String → ℤ → String → Broadcast
  announce_released kind g reason = broadcast_event "failed to serialize event" g (
      released_message (record {
        released_type = kind;
        released_timestamp = line.now;
        released_game_id = g;
        reason = reason;
      }))

  -- `BroadcastReservationCreated`
  unfoldable pub broadcast_reservation_created : GameReservation → Broadcast
  unfolding announce_created
  broadcast_reservation_created r = announce_created "reservation_created" r

  -- `BroadcastReservationReleased`
  unfoldable pub broadcast_reservation_released : ℤ → String → Broadcast
  unfolding announce_released
  broadcast_reservation_released g reason = announce_released "reservation_released" g reason

  -- `BroadcastCancelReservationCreated`
  unfoldable pub broadcast_cancel_reservation_created : GameReservation → Broadcast
  unfolding announce_created
  broadcast_cancel_reservation_created r = announce_created "cancel_reservation_created" r

  -- `BroadcastCancelReservationReleased`
  unfoldable pub broadcast_cancel_reservation_released : ℤ → String → Broadcast
  unfolding announce_released
  broadcast_cancel_reservation_released g reason =
      announce_released "cancel_reservation_released" g reason

  -- `BroadcastRevealReservationCreated`
  unfoldable pub broadcast_reveal_reservation_created : GameReservation → Broadcast
  unfolding announce_created
  broadcast_reveal_reservation_created r = announce_created "reveal_reservation_created" r

  -- `BroadcastRevealReservationReleased`
  unfoldable pub broadcast_reveal_reservation_released : ℤ → String → Broadcast
  unfolding announce_released
  broadcast_reveal_reservation_released g reason =
      announce_released "reveal_reservation_released" g reason

  -- `BroadcastExpiredClaimCreated`
  unfoldable pub broadcast_expired_claim_created : GameReservation → Broadcast
  unfolding announce_created
  broadcast_expired_claim_created r = announce_created "expired_claim_created" r

  -- `BroadcastExpiredClaimReleased`
  unfoldable pub broadcast_expired_claim_released : ℤ → String → Broadcast
  unfolding announce_released
  broadcast_expired_claim_released g reason = announce_released "expired_claim_released" g reason
