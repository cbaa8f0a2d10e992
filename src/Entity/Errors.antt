-- ===== src/Entity/Errors.antt =====
-- internal/entity/errors.go, with a constructor for whatever error a repository returns.
use Prim.Native.String.{String}

pub data Error : Type 0 where
  game_already_reserved too_many_reservations cannot_reserve_own_game not_reservation_holder : Error
  game_not_available reservation_not_found expired_claim_wallet_required : Error
  game_cancellation_pending cancel_already_reserved cancel_not_available not_game_creator : Error
  too_many_cancel_reservations cancel_reservation_not_found not_cancel_reservation_holder : Error
  reveal_already_reserved reveal_not_available not_a_player too_many_reveal_reservations : Error
  reveal_reservation_not_found not_reveal_reservation_holder : Error
  expired_claim_already_claimed expired_claim_not_available not_expired_claim_participant : Error
  too_many_expired_claims expired_claim_not_found not_expired_claim_holder : Error
  invalid_activity_queue_key invalid_activity_offset activity_wallet_required : Error
  repository_error : String → Error
