-- ===== src/GamePersistence/Handlers.antt =====
-- The handlers of internal/usecase/game_persistence.go, one for each type of event, and the switch of
-- `routeEvent` in internal/usecase/blockchain_subscriber.go. The event is the one of the state.
use pod_backend.Common.{
  Option, none, some, [], Text, codes, pos, eqb, text_eq, ok, err, if◌then◌else◌,
}
use pod_backend.Database.{message, Action, wrap, ◌>>=◌, ◌>>◌}
use pod_backend.Database.Games.{get_game, join_game, reveal_choice, complete_game, cancel_game}
use pod_backend.Database.Users.{ensure_user_by_wallet, increment_games_played}
use pod_backend.Entity.GameEvent.{
  event_game_initialized, event_game_started, event_game_finished, event_game_cancelled, event_draw,
  event_secret_opened, event_insufficient_balance,
}
use pod_backend.GamePersistence.{
  current, find_game, Env, System, GameEventType, game_started, game_finished, game_cancelled, draw,
  secret_opened, db, step, read, expects, serialize_event_data, persist_event, with_tx,
  broadcast_game_update, release_join_reservation, release_cancel_reservation_if_unavailable,
  release_reveal_reservation_if_any, release_expired_claim_if_resolved, unless_duplicate,
}
use pod_backend.GamePersistence.Extract.{extract_int64, extract_string}
use pod_backend.GamePersistence.Creating.{handle_game_initialized}
use pod_backend.GamePersistence.Settling.{settle_game, settle, payout_of}

module _ (env : Env) where
  -- The part of `HandleGameStarted` behind the test for a duplicate.
  unfoldable pub start_game : Text → Action System (Unit {0})
  start_game player_two = do
    e ← current
    wrap "failed to ensure player two user" (db (ensure_user_by_wallet env.server player_two))
    wrap "failed to join game"
        (db (join_game env.server e.game_id player_two e.transaction_hash e.timestamp))
    step (release_join_reservation env e.game_id)
    step (release_cancel_reservation_if_unavailable env e.game_id)
    step (broadcast_game_update env e.game_id game_started)
    step (release_expired_claim_if_resolved env e.game_id)

  -- `HandleGameStarted`
  unfoldable pub handle_game_started : Action System (Unit {0})
  handle_game_started = do
    expects event_game_started
    player_two ← read (extract_string (codes "player_two"))
    _ ← find_game env
    serialize_event_data env
    persist_event env
    unless_duplicate (start_game player_two)

  -- What the handlers of a finished game release, after the broadcast.
  unfoldable pub release_finished : GameEventType → Action System (Unit {0})
  release_finished kind = do
    e ← current
    step (broadcast_game_update env e.game_id kind)
    step (release_cancel_reservation_if_unavailable env e.game_id)
    step (release_reveal_reservation_if_any env e.game_id)
    step (release_expired_claim_if_resolved env e.game_id)

  unfoldable pub in_transaction : Action System (Unit {0}) → Action System (Unit {0})
  in_transaction body s = if s.transactional then with_tx env body s else body s

  -- `HandleGameFinished`
  unfoldable pub handle_game_finished : Action System (Unit {0})
  unfolding in_transaction
  handle_game_finished = do
    expects event_game_finished
    game ← find_game env
    serialize_event_data env
    winner ← read (extract_string (codes "winner"))
    payout ← read (payout_of env)
    in_transaction (settle_game env (settle game winner payout))
    unless_duplicate (release_finished game_finished)

  unfoldable pub count_player_two : Option Text → Action System (Unit {0})
  count_player_two none s = (ok tt, s)
  count_player_two (some two) s =
      wrap "failed to increment games played for player 2"
        (db (increment_games_played env.server two)) s

  -- The part of `HandleDraw` behind the test for a duplicate.
  unfoldable pub finish_draw : Action System (Unit {0})
  unfolding count_player_two
  finish_draw = do
    e ← current
    wrap "failed to complete game (draw)"
        (db (complete_game env.server e.game_id [] (pos 0) e.transaction_hash e.timestamp))
    game ← wrap "failed to get game for stats update" (db (get_game env.server e.game_id))
    wrap "failed to increment games played for player 1"
        (db (increment_games_played env.server game.player_one_address))
    count_player_two game.player_two_address
    release_finished draw

  -- `HandleDraw`
  unfoldable pub handle_draw : Action System (Unit {0})
  handle_draw = do
    expects event_draw
    _ ← find_game env
    serialize_event_data env
    persist_event env
    unless_duplicate finish_draw

  -- The part of `HandleGameCancelled` behind the test for a duplicate.
  unfoldable pub finish_cancelled : Action System (Unit {0})
  finish_cancelled = do
    e ← current
    wrap "failed to cancel game"
        (db (cancel_game env.server e.game_id e.transaction_hash e.timestamp))
    step (broadcast_game_update env e.game_id game_cancelled)
    step (release_cancel_reservation_if_unavailable env e.game_id)
    step (release_reveal_reservation_if_any env e.game_id)

  -- `HandleGameCancelled`
  unfoldable pub handle_game_cancelled : Action System (Unit {0})
  handle_game_cancelled = do
    expects event_game_cancelled
    _ ← find_game env
    serialize_event_data env
    persist_event env
    unless_duplicate finish_cancelled

  -- The part of `HandleSecretOpened` behind the test for a duplicate.
  unfoldable pub open_secret : Action System (Unit {0})
  open_secret = do
    e ← current
    player ← read (extract_string (codes "player"))
    side ← read (extract_int64 env.to_int64 (codes "coin_side"))
    wrap "failed to reveal choice"
        (db (reveal_choice env.server e.game_id player side e.transaction_hash e.timestamp))
    step (broadcast_game_update env e.game_id secret_opened)
    step (release_cancel_reservation_if_unavailable env e.game_id)
    step (release_expired_claim_if_resolved env e.game_id)

  -- `HandleSecretOpened`
  unfoldable pub handle_secret_opened : Action System (Unit {0})
  handle_secret_opened = do
    expects event_secret_opened
    _ ← find_game env
    serialize_event_data env
    persist_event env
    unless_duplicate open_secret

  -- `HandleInsufficientBalance`
  unfoldable pub handle_insufficient_balance : Action System (Unit {0})
  handle_insufficient_balance = do
    expects event_insufficient_balance
    _ ← find_game env
    serialize_event_data env
    persist_event env

  -- `routeEvent`
  unfoldable pub route_event : Action System (Unit {0})
  route_event s =
      let kind = s.event.event_type in
      if eqb kind event_game_initialized
      then handle_game_initialized env s
      else if eqb kind event_game_started
      then handle_game_started s
      else if eqb kind event_game_finished
      then handle_game_finished s
      else if eqb kind event_game_cancelled
      then handle_game_cancelled s
      else if eqb kind event_draw
      then handle_draw s
      else if eqb kind event_secret_opened
      then handle_secret_opened s
      else if eqb kind event_insufficient_balance
      then handle_insufficient_balance s
      else (err (message "unknown event type"), s)
