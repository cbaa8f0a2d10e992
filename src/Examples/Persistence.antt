-- ===== src/Examples/Persistence.antt =====
-- Tests of the persistence of events, and each result on it at a concrete input.
use pod_backend.Common.{
  Bool, true, false, Option, some, [], ◌∷◌, Text, codes, ℤ, pos, negsuc, ok, ◌≡◌, ◌≢◌, ◌⊎◌, refl,
  eqb, inl, sym, ◌∙◌, ℕ, arith, ℕ_discrete, contains, parse_int, format_int, succ_ℤ, text_eq,
  int_eq,
}
use pod_backend.Common.Dict.{Dict, lookup, insert}
use pod_backend.Database.{
  UserRow, message, wrapped, pure, wrap, ◌>>=◌, ◌>>◌, check, execute, is_text, is_varchar,
  is_varchar?, is_integer, is_bigint, is_user, is_user?,
}
use pod_backend.Database.Consistency.{IsConsistent}
use pod_backend.Database.Events.{
  is_recorded, same_event, upsert_event, insert_event, event_row_ok, event_row, scanned,
}
use pod_backend.Database.Games.{
  game_row_ok, set_game, write_game, get_game, join_game, joined, complete_game, completed,
  text_or_null, amount_or_null,
}
use pod_backend.Database.Tallies.{tallies, map_some}
use pod_backend.Database.Users.{
  ensure_user_by_wallet, insert_user, blockchain_user, write_user, user_row_ok, count_for, set_user,
  on_columns, played, won, lost, increment_games_played, increment_wins, increment_losses,
}
use pod_backend.Entity.Game.{Game, status_paid}
use pod_backend.Entity.GameEvent.{
  GameEvent, EventData, text, validate_event, event_game_initialized, event_game_started,
  event_game_finished,
}
use pod_backend.Examples.Fixtures.{plain, alice, carol, game_of, at, fresh, joining}
use pod_backend.GamePersistence.{
  Env, System, db, step, read, expects, serialize_event_data, persist_event, with_tx, answer,
  committed, rolled_back, undo, find_game, current, unless_duplicate, broadcast_game_update,
  release_join_reservation, release_cancel_reservation_if_unavailable,
  release_reveal_reservation_if_any, release_expired_claim_if_resolved,
}
use pod_backend.GamePersistence.Atomicity.{handle_game_finished-atomic}
use pod_backend.GamePersistence.Consistency.{route_event-IsConsistent}
use pod_backend.GamePersistence.Duplicates.{route_event-duplicate}
use pod_backend.GamePersistence.Ended.{handle_ending, handle_ending-frees, by_winner}
use pod_backend.GamePersistence.Extract.{
  extract_int64, extract_string, int64_of, extract_int64-insert,
}
use pod_backend.GamePersistence.Finished.{after_game, handle_game_finished-settles}
use pod_backend.GamePersistence.Handlers.{
  route_event, handle_game_started, handle_game_finished, start_game, in_transaction,
  release_finished,
}
use pod_backend.GamePersistence.Redelivery.{handle_game_started-lost}
use pod_backend.GamePersistence.Releases.{Freed}
use pod_backend.GamePersistence.Settling.{
  settle_game, finish_game, settle, loser_of, referrer_of, count_loser, count_referrer, payout_of,
}
use pod_backend.GamePersistence.Started.{handle_game_started-frees}

-- A server that fails at the statements of a test.
abbrev env_failing : (ℕ → Bool) → Env
env_failing fails = record {
  server = record { fails = fails; clock = λ n. n };
  to_int64 = pos;
  marshal = λ _. ok (codes "{}");
  lib = plain;
  world = at 5;
}

abbrev env : Env
env = env_failing (λ _. false)

abbrev user_of : Text → UserRow
user_of w = record { columns = blockchain_user w; named = false }

abbrev game : Game
game = record (game_of (pos 7) (pos 2)) { player_two_address = some carol }

abbrev event_of : Text → Option EventData → GameEvent
event_of kind d = record {
  id = pos 0;
  game_id = pos 7;
  event_type = kind;
  transaction_hash = codes "t1";
  block_number = pos 12;
  timestamp = 900;
  payload = [];
  event_data = d;
  created_at = 0;
}

abbrev won_by_alice : GameEvent
won_by_alice =
    event_of event_game_finished
      (some ((codes "winner", text alice) ∷ (codes "total_gainings", text (codes "90")) ∷ []))

abbrev joined_by_carol : GameEvent
joined_by_carol = event_of event_game_started (some ((codes "player_two", text carol) ∷ []))

abbrev system_of : Dict ℤ Game → Bool → GameEvent → System
system_of games transactional e = record {
  tables = record {
    games = games;
    events = [];
    users = (alice, user_of alice) ∷ (carol, user_of carol) ∷ [];
    next_event_id = 1;
    next_user_id = 3;
    statements = 0;
  };
  event = e;
  joins = some fresh;
  cancels = some fresh;
  reveals = some fresh;
  claims = some fresh;
  transactional = transactional;
  broadcasting = true;
  effects = [];
  updates = [];
}

abbrev finishing : System
finishing = system_of ((pos 7, game) ∷ []) true won_by_alice

abbrev starting : System
starting = system_of ((pos 7, game_of (pos 7) (pos 1)) ∷ []) false joined_by_carol

-- What a run of the handlers computes through.
unfoldable persisting : Bool
unfolding joining handle_game_finished expects validate_event contains find_game wrap db get_game
    execute serialize_event_data read extract_string ◌>>=◌ ◌>>◌ payout_of extract_int64 int64_of
    parse_int in_transaction with_tx answer settle settle_game persist_event upsert_event check pure
    insert_event event_row_ok event_row scanned is_recorded same_event unless_duplicate finish_game
    current complete_game set_game game_row_ok is_varchar is_varchar? is_text is_user is_user?
    completed text_or_null amount_or_null write_game increment_games_played increment_wins
    increment_losses count_for set_user on_columns played won lost user_row_ok blockchain_user
    is_integer is_bigint write_user count_loser count_referrer loser_of referrer_of committed
    release_finished step broadcast_game_update succ_ℤ handle_game_started start_game
    ensure_user_by_wallet insert_user join_game joined undo rolled_back
    release_expired_claim_if_resolved release_reveal_reservation_if_any
    release_cancel_reservation_if_unavailable release_join_reservation
persisting = true

-- Alice wins 90: the game is paid, and both have one game.
finished : System
unfolding persisting
finished = (handle_game_finished env finishing).1

finish_pays :
    lookup (pos 7) finished.tables.games
    ≡ some (record game {
      status = pos 4;
      winner_address = some alice;
      payout_amount = some (pos 90);
      completed_at = some 900;
      complete_tx_hash = some (codes "t1");
    })
unfolding finished persisting
finish_pays = refl

finish_succeeds : (handle_game_finished env finishing).0 ≡ ok tt
unfolding persisting
finish_succeeds = refl

-- The same event in a new object, after it was processed.
abbrev again : System
again = record (handle_game_finished env finishing).1 { event = won_by_alice }

recorded_again : is_recorded again.event again.tables.events ≡ true
unfolding persisting
recorded_again = refl

route_event-duplicate_example :
    let t = (route_event env again).1.tables in
    (t.games ≡ again.tables.games)
    × (t.events ≡ again.tables.events)
    × (t.users ≡ again.tables.users)
route_event-duplicate_example = route_event-duplicate env again recorded_again refl (λ e. cc)

-- An initialisation that reaches empty tables.
abbrev beginning : System
beginning =
    record (system_of [] false (
      event_of event_game_initialized (
        some (
          (codes "game_id", text (codes "7"))
          ∷ (codes "player_one", text alice)
          ∷ (codes "bet_amount", text (codes "5"))
          ∷ [])))) {
            tables = record {
              games = [];
              events = [];
              users = [];
              next_event_id = 1;
              next_user_id = 1;
              statements = 0;
            };
          }

beginning-IsConsistent : IsConsistent beginning.tables
unfolding lookup
beginning-IsConsistent = record {
  games_fit = λ i g e. cc;
  events_fit = tt;
  users_fit = λ w u e. cc;
}

route_event-IsConsistent_example : IsConsistent (route_event env beginning).1.tables
route_event-IsConsistent_example = route_event-IsConsistent env beginning beginning-IsConsistent

-- The server fails at the update of the winner.
abbrev broken : Env
broken = env_failing (λ n. elim (ℕ_discrete n 5) [ yes _ ↦ true | no _ ↦ false ])

handle_game_finished-atomic_example :
    let (r, s') = handle_game_finished broken finishing in
    (r ≡ ok tt)
    ⊎ ((s'.tables.games ≡ finishing.tables.games)
        × (s'.tables.events ≡ finishing.tables.events)
        × (s'.tables.users ≡ finishing.tables.users))
handle_game_finished-atomic_example = handle_game_finished-atomic broken finishing refl

-- Carol has lost to Alice.
handle_game_finished-settles_example :
    let t = (handle_game_finished env finishing).1.tables in
    (lookup (pos 7) t.games
      ≡ some (record game {
        status = status_paid;
        winner_address = some alice;
        payout_amount = some (pos 90);
        complete_tx_hash = some (codes "t1");
        completed_at = some 900;
      }))
    × (tallies t.users carol
        ≡ map_some
            (after_game (eqb alice carol) (eqb carol carol))
            (tallies finishing.tables.users carol))
    × (is_recorded won_by_alice t.events ≡ true)
unfolding persisting
handle_game_finished-settles_example =
    handle_game_finished-settles env finishing game alice carol (pos 90) carol (pos 7) refl refl
      refl (inl (refl, refl)) refl refl refl refl (omega arith) refl

-- The server fails at the update of the game, behind the read, the event and the user.
abbrev failing : Env
failing = env_failing (λ n. elim (ℕ_discrete n 3) [ yes _ ↦ true | no _ ↦ false ])

handle_game_started-lost_example :
    (route_event env
      (record (handle_game_started failing starting).1 { event = joined_by_carol })).1.tables.games
    ≡ starting.tables.games
unfolding persisting
handle_game_started-lost_example =
    handle_game_started-lost failing env starting
      (wrapped "failed to join game" (wrapped "execute query" (message "connection failure")))
      joined_by_carol refl refl refl (λ e. cc)

one-ne-zero : ◌≢◌ {A = ℤ} (pos 1) (pos 0)
one-ne-zero e = cc

started_id : (handle_game_started env starting).1.event.id ≡ pos 1
unfolding persisting
started_id = refl

finished_id : (handle_game_finished env finishing).1.event.id ≡ pos 1
unfolding persisting
finished_id = refl

start_succeeds : (handle_game_started env starting).0 ≡ ok tt
unfolding persisting
start_succeeds = refl

handle_game_started-frees_example :
    let s' = (handle_game_started env starting).1 in
    Freed env (pos 7) s'.joins × Freed env (pos 7) s'.cancels × Freed env (pos 7) s'.claims
handle_game_started-frees_example =
    handle_game_started-frees env starting start_succeeds (λ e. one-ne-zero (sym started_id ∙ e))

handle_ending-frees_example :
    let s' = (handle_ending env by_winner finishing).1 in
    Freed env (pos 7) s'.cancels × Freed env (pos 7) s'.reveals
handle_ending-frees_example =
    handle_ending-frees env by_winner finishing finish_succeeds
      (λ e. one-ne-zero (sym finished_id ∙ e))

extract_int64-insert_example :
    extract_int64 pos
      (codes "bet_amount")
      (insert (codes "bet_amount") (text (format_int (negsuc 41))) [])
    ≡ ok (negsuc 41)
extract_int64-insert_example =
    extract_int64-insert pos (codes "bet_amount") (negsuc 41) [] refl refl
