-- ===== src/GamePersistence/Consistency.antt =====
-- Every handler of internal/usecase/game_persistence.go leaves the three tables consistent.
use Prim.Native.String.{String}
use pod_backend.Common.{
  Option, none, some, [], ◌∷◌, Text, ℤ, pos, Bool-cases, inl, inr, arith, ltb_ℤ,
}
use pod_backend.Database.{wrap}
use pod_backend.Database.Consistency.{IsConsistent}
use pod_backend.Database.Counters.{
  Slack, ensure_user-keeps, increment_games_played-Leads, increment_games_played-keeps,
  increment_wins-Takes, increment_losses-Takes, increment_referrals-keeps,
}
use pod_backend.Database.Keeping.{
  Keeps, Takes, Leads, bind-Keeps, then-Keeps, wrap-Keeps, pure-Keeps, lead-Keeps, take-Keeps,
  wrap-Leads, wrap-Takes,
}
use pod_backend.Database.Users.{increment_games_played, increment_wins, increment_losses}
use pod_backend.Database.Statements.{
  create_or_ignore-keeps, join_game-keeps, complete_game-keeps, cancel_game-keeps, get_game-keeps,
  reveal_choice-keeps,
}
use pod_backend.GamePersistence.{Env, System, GameEventType, db, undo}
use pod_backend.GamePersistence.Creating.{read_game, handle_game_initialized}
use pod_backend.GamePersistence.Handlers.{
  route_event, in_transaction, handle_game_started, handle_game_finished, handle_game_cancelled,
  handle_draw, handle_secret_opened, handle_insufficient_balance, start_game, release_finished,
  finish_draw, finish_cancelled, open_secret, count_player_two,
}
use pod_backend.GamePersistence.Keeping.{
  expects-Keeps, read-Keeps, current-Keeps, unless_duplicate-Keeps, in_transaction-Keeps,
}
use pod_backend.GamePersistence.Settling.{
  Settlement, settle_game, finish_game, count_loser, count_referrer,
}
use pod_backend.GamePersistence.Fitting.{
  Fits, Room, db-Keeps, made-Keeps, db-Leads, db-Takes, persist_event-Keeps, serialize-Keeps,
  find_game-Keeps, broadcast-Keeps, join-Keeps, cancel-Keeps, reveal-Keeps, claim-Keeps,
}

module _ (env : Env) where
  ruleset fits_rules = (
    then-Keeps, bind-Keeps, wrap-Keeps, expects-Keeps, read-Keeps, current-Keeps,
    unless_duplicate-Keeps, persist_event-Keeps, serialize-Keeps, find_game-Keeps, db-Keeps,
    broadcast-Keeps, join-Keeps, cancel-Keeps, reveal-Keeps, claim-Keeps, ensure_user-keeps,
    create_or_ignore-keeps, join_game-keeps, complete_game-keeps, cancel_game-keeps, get_game-keeps,
    reveal_choice-keeps, increment_games_played-keeps, increment_referrals-keeps,
  )

  played_lead :
      (context : String) (w : Text)
      → Leads Fits (Room w) (wrap context (db (increment_games_played env.server w)))
  played_lead context w =
      wrap-Leads Fits (Room w) context _
        (db-Leads (Slack w) _ (increment_games_played-Leads env.server w))

  won_take :
      (context : String) (w : Text)
      → Takes (Room w) Fits (wrap context (db (increment_wins env.server w)))
  won_take context w =
      wrap-Takes (Room w) Fits context _ (db-Takes (Slack w) _ (increment_wins-Takes env.server w))

  lost_take :
      (context : String) (w : Text)
      → Takes (Room w) Fits (wrap context (db (increment_losses env.server w)))
  lost_take context w =
      wrap-Takes (Room w) Fits context _
        (db-Takes (Slack w) _ (increment_losses-Takes env.server w))

  count_loser-Keeps : (w : Text) → Keeps Fits (count_loser env w)
  unfolding count_loser
  count_loser-Keeps [] = pure-Keeps Fits tt
  count_loser-Keeps (c ∷ w) =
      lead-Keeps Fits (Room (c ∷ w)) _ _ (played_lead _ (c ∷ w)) (lost_take _ (c ∷ w))

  count_referrer-Keeps : (w : Text) (n : ℤ) → Keeps Fits (count_referrer env w n)
  unfolding count_referrer
  count_referrer-Keeps [] n = record { keep = λ s h. h }
  count_referrer-Keeps (c ∷ w) n = record {
    keep = λ s h. elim (Bool-cases (ltb_ℤ (pos 0) n)) [
      | inl e ↦ rw e (
          (wrap-Keeps Fits "failed to update referrer stats" _
              (db-Keeps _ (increment_referrals-keeps env.server (c ∷ w) n))).keep
            s h)
      | inr e ↦ rw e h
    ];
  }

  finish_game-Keeps : (x : Settlement) → Keeps Fits (finish_game env x)
  unfolding finish_game
  finish_game-Keeps x = bind-Keeps Fits _ _ (current-Keeps Fits) (λ e.
      then-Keeps Fits _ _ (search fits_rules) (
        lead-Keeps Fits (Room x.winner) _ _ (played_lead _ x.winner) (
          take-Keeps Fits (Room x.winner) _ _ (won_take _ x.winner)
            (then-Keeps Fits _ _ (count_loser-Keeps x.loser) (count_referrer-Keeps _ x.earnings)))))

  settle_game-Keeps : (x : Settlement) → Keeps Fits (settle_game env x)
  unfolding settle_game
  settle_game-Keeps x = search (fits_rules, finish_game-Keeps)

  release_finished-Keeps : (kind : GameEventType) → Keeps Fits (release_finished env kind)
  unfolding release_finished
  release_finished-Keeps kind = search fits_rules depth 14

  transaction-Keeps : (x : Settlement) → Keeps Fits (in_transaction env (settle_game env x))
  transaction-Keeps x =
      in_transaction-Keeps Fits env
        (λ s n h. record {
          games_fit = h.games_fit;
          events_fit = h.events_fit;
          users_fit = h.users_fit;
        })
        (λ s s' h h'.
          unfold undo in
          record { games_fit = h.games_fit; events_fit = h.events_fit; users_fit = h.users_fit })
        (settle_game env x) (settle_game-Keeps x)

  count_player_two-Keeps : (o : Option Text) → Keeps Fits (count_player_two env o)
  unfolding count_player_two
  count_player_two-Keeps none = record { keep = λ s h. h }
  count_player_two-Keeps (some w) = record {
    keep = λ s h.
        (wrap-Keeps Fits "failed to increment games played for player 2" _
            (db-Keeps _ (increment_games_played-keeps env.server w))).keep
          s h;
  }

  read_game-Keeps : Keeps Fits (read_game env)
  unfolding read_game
  read_game-Keeps = search (bind-Keeps, read-Keeps, made-Keeps) depth 30

  initialized : Keeps Fits (handle_game_initialized env)
  unfolding handle_game_initialized
  initialized = search (fits_rules, read_game-Keeps) depth 24

  started : Keeps Fits (handle_game_started env)
  unfolding handle_game_started start_game
  started = search fits_rules depth 24

  finished : Keeps Fits (handle_game_finished env)
  unfolding handle_game_finished
  finished = search (fits_rules, transaction-Keeps, release_finished-Keeps) depth 20

  was_cancelled : Keeps Fits (handle_game_cancelled env)
  unfolding handle_game_cancelled finish_cancelled
  was_cancelled = search fits_rules depth 24

  drawn : Keeps Fits (handle_draw env)
  unfolding handle_draw finish_draw
  drawn = search (fits_rules, count_player_two-Keeps, release_finished-Keeps) depth 24

  opened : Keeps Fits (handle_secret_opened env)
  unfolding handle_secret_opened open_secret
  opened = search fits_rules depth 24

  insufficient : Keeps Fits (handle_insufficient_balance env)
  unfolding handle_insufficient_balance
  insufficient = search fits_rules depth 14

-- An event of any type leaves consistent tables consistent, whatever the server fails to answer, with
-- or without a transaction manager, and whether the handler returns an error or not: every game, event
-- and user stands under its key and meets its constraints, the players of each game are users, each
-- event has its game, no two events have the same game, transaction and type, and no user has more
-- wins and losses than games.
pub route_event-IsConsistent :
    (env : Env) (s : System) → IsConsistent s.tables → IsConsistent (route_event env s).1.tables
unfolding route_event
route_event-IsConsistent env s h = ground (
  arith,
  (initialized env).keep s h,
  (started env).keep s h,
  (finished env).keep s h,
  (was_cancelled env).keep s h,
  (drawn env).keep s h,
  (opened env).keep s h,
  (insufficient env).keep s h,
)
