-- ===== src/GamePersistence/Creating.antt =====
-- `HandleGameInitialized` of internal/usecase/game_persistence.go.
use pod_backend.Common.{none, [], Text, codes, ℤ, pos, text_eq, Outcome, ok, err}
use pod_backend.Database.{Fault, Action, wrap, ◌>>=◌, ◌>>◌}
use pod_backend.Database.Games.{create_or_ignore}
use pod_backend.Database.Users.{ensure_user_by_wallet}
use pod_backend.Entity.Game.{Game, status_waiting_for_opponent, coin_side_closed}
use pod_backend.Entity.GameEvent.{EventData, event_game_initialized}
use pod_backend.GamePersistence.{
  Env, System, game_initialized, db, step, read, expects, serialize_event_data, persist_event,
  broadcast_game_update, release_expired_claim_if_resolved, unless_duplicate,
}
use pod_backend.GamePersistence.Extract.{
  extract_int64, extract_optional_int64, extract_string, extract_optional_string,
}

module _ (env : Env) where
  optional : Text → ℤ → EventData → Outcome Fault ℤ
  optional key default d = extract_optional_int64 env.to_int64 key default d

  -- `player_one_choice`, for which an error of the reader is not one.
  choice_or_closed : EventData → Outcome Fault ℤ
  choice_or_closed d = elim (extract_int64 env.to_int64 (codes "player_one_choice") d) [
    | ok z ↦ ok z
    | err _ ↦ ok coin_side_closed
  ]

  -- The game that `HandleGameInitialized` creates from the event data.
  unfoldable pub read_game : Action System Game
  unfolding optional choice_or_closed
  read_game = do
    game_id ← read (extract_int64 env.to_int64 (codes "game_id"))
    player_one ← read (extract_string (codes "player_one"))
    bet_amount ← read (extract_int64 env.to_int64 (codes "bet_amount"))
    choice ← read choice_or_closed
    service_fee ← read (optional (codes "service_fee_numerator") (pos 0))
    referrer_fee ← read (optional (codes "referrer_fee_numerator") (pos 0))
    timeout ← read (optional (codes "waiting_for_open_bid_seconds") (pos 0))
    lowest ← read (optional (codes "lowest_bid") (pos 0))
    highest ← read (optional (codes "highest_bid") (pos 0))
    min_payout ← read (optional (codes "min_referrer_payout_value") (pos 0))
    receiver ← read (extract_optional_string (codes "fee_receiver") [])
    version ← read (optional (codes "protocol_version") (pos 1))
    λ s. (
      ok (record {
        game_id = game_id;
        status = status_waiting_for_opponent;
        player_one_address = player_one;
        player_two_address = none;
        player_one_choice = choice;
        player_two_choice = none;
        player_one_referrer = none;
        player_two_referrer = none;
        bet_amount = bet_amount;
        winner_address = none;
        payout_amount = none;
        service_fee_numerator = service_fee;
        referrer_fee_numerator = referrer_fee;
        waiting_timeout_seconds = timeout;
        lowest_bid_allowed = lowest;
        highest_bid_allowed = highest;
        min_referrer_payout_value = min_payout;
        protocol_version = version;
        fee_receiver_address = receiver;
        created_at = s.event.timestamp;
        joined_at = none;
        revealed_at = none;
        completed_at = none;
        init_tx_hash = s.event.transaction_hash;
        join_tx_hash = none;
        reveal_tx_hash = none;
        complete_tx_hash = none;
      }),
      s,
    )

  -- `HandleGameInitialized`
  unfoldable pub handle_game_initialized : Action System (Unit {0})
  handle_game_initialized = do
    expects event_game_initialized
    game ← read_game
    wrap "failed to ensure player one user"
        (db (ensure_user_by_wallet env.server game.player_one_address))
    _ ← wrap "failed to create game" (db (create_or_ignore env.server game))
    serialize_event_data env
    persist_event env
    unless_duplicate (do
      step (broadcast_game_update env game.game_id game_initialized)
      step (release_expired_claim_if_resolved env game.game_id))
