-- ===== src/GamePersistence/Duplicates.antt =====
-- What an event that was recorded before does when it is delivered again.
use pod_backend.Common.{
  true, List, [], ◌∷◌, Text, is_empty, pos, text_eq, Outcome-cases, Option-cases, Bool-cases, inl,
  inr, ◌≡◌, ◌≢◌, refl, arith,
}
use pod_backend.Database.{Tables, Action, execute, ◌>>=◌, ◌>>◌, wrap, check, pure}
use pod_backend.Database.Events.{upsert_event, insert_event, is_recorded, same_event, scanned}
use pod_backend.Database.Games.{get_game}
use pod_backend.Database.Keeping.{Keeps, bind-Keeps, then-Keeps}
use pod_backend.GamePersistence.Keeping.{expects-Keeps, read-Keeps, in_transaction-Keeps}
use pod_backend.Entity.GameEvent.{event_game_initialized, GameEvent}
use pod_backend.GamePersistence.{
  Env, System, db, serialize_event_data, persist_event, find_game, undo, unless_duplicate,
}
use pod_backend.GamePersistence.Handlers.{
  handle_game_started, handle_game_finished, handle_game_cancelled, handle_draw, route_event,
  in_transaction, handle_secret_opened, handle_insufficient_balance,
}
use pod_backend.GamePersistence.Settling.{Settlement, settle_game}

-- The rows that a state holds are these, and its event is one of them, though its object is new.
pub record IsDuplicate (t : Tables) (s : System) : Type 0 where
  pub same_games : s.tables.games ≡ t.games
  pub same_events : s.tables.events ≡ t.events
  pub same_users : s.tables.users ≡ t.users
  pub recorded : is_recorded s.event s.tables.events ≡ true
  pub fresh : s.event.id ≡ pos 0

-- The payload is not part of the key.
pub is_recorded-payload :
    (e : GameEvent) (p : Text) (rows : List GameEvent)
    → is_recorded (record e { payload = p }) rows ≡ is_recorded e rows
unfolding is_recorded same_event
is_recorded-payload e p [] = refl
is_recorded-payload e p (row ∷ rows) = ground (arith, is_recorded-payload e p rows)

module _ (env : Env) (t : Tables) where
  persist_event-keeps_duplicate :
      (s : System) → IsDuplicate t s → IsDuplicate t (persist_event env s).1
  unfolding persist_event upsert_event execute insert_event scanned ◌>>=◌ ◌>>◌ wrap check pure
  persist_event-keeps_duplicate s h = ground arith

  serialize-keeps_duplicate :
      (s : System) → IsDuplicate t s → IsDuplicate t (serialize_event_data env s).1
  unfolding serialize_event_data
  serialize-keeps_duplicate s h = elim (Bool-cases (is_empty s.event.payload)) [
    | inl e ↦ elim (Option-cases s.event.event_data) [
      | inl n ↦ ground arith
      | inr (d, n) ↦ elim (Outcome-cases (env.marshal d)) [
        | inl (p, m) ↦ ground (arith, is_recorded-payload s.event p s.tables.events)
        | inr (m, f) ↦ ground arith
      ]
    ]
    | inr e ↦ ground arith
  ]

  find_game-keeps_duplicate : (s : System) → IsDuplicate t s → IsDuplicate t (find_game env s).1
  unfolding find_game get_game execute wrap db
  find_game-keeps_duplicate s h = ground arith

  persist_event-IsDuplicate : Keeps (IsDuplicate t) (persist_event env)
  persist_event-IsDuplicate = record { keep = persist_event-keeps_duplicate }

  serialize-IsDuplicate : Keeps (IsDuplicate t) (serialize_event_data env)
  serialize-IsDuplicate = record { keep = serialize-keeps_duplicate }

  find_game-IsDuplicate : Keeps (IsDuplicate t) (find_game env)
  find_game-IsDuplicate = record { keep = find_game-keeps_duplicate }

  unless_duplicate-IsDuplicate :
      (rest : Action System (Unit {0})) → Keeps (IsDuplicate t) (unless_duplicate rest)
  unfolding unless_duplicate
  unless_duplicate-IsDuplicate rest = record { keep = λ s h. ground (arith, h.fresh) }

  ruleset duplicate_rules = (
    then-Keeps, bind-Keeps, expects-Keeps, read-Keeps, persist_event-IsDuplicate,
    serialize-IsDuplicate, find_game-IsDuplicate, unless_duplicate-IsDuplicate,
  )

  settle_game-IsDuplicate : (x : Settlement) → Keeps (IsDuplicate t) (settle_game env x)
  unfolding settle_game
  settle_game-IsDuplicate x = search duplicate_rules

  in_transaction-IsDuplicate :
      (x : Settlement) → Keeps (IsDuplicate t) (in_transaction env (settle_game env x))
  in_transaction-IsDuplicate x =
      in_transaction-Keeps (IsDuplicate t) env (λ s n h. ground arith)
        (λ s s' h h'. unfold undo in ground arith) (settle_game env x) (settle_game-IsDuplicate x)

  started : Keeps (IsDuplicate t) (handle_game_started env)
  unfolding handle_game_started
  started = search duplicate_rules depth 14

  finished : Keeps (IsDuplicate t) (handle_game_finished env)
  unfolding handle_game_finished
  finished = search (duplicate_rules, in_transaction-IsDuplicate) depth 20

  was_cancelled : Keeps (IsDuplicate t) (handle_game_cancelled env)
  unfolding handle_game_cancelled
  was_cancelled = search duplicate_rules depth 14

  drawn : Keeps (IsDuplicate t) (handle_draw env)
  unfolding handle_draw
  drawn = search duplicate_rules depth 14

  opened : Keeps (IsDuplicate t) (handle_secret_opened env)
  unfolding handle_secret_opened
  opened = search duplicate_rules depth 14

  insufficient : Keeps (IsDuplicate t) (handle_insufficient_balance env)
  unfolding handle_insufficient_balance
  insufficient = search duplicate_rules depth 14

-- An event other than an initialisation that is delivered again, in a new object, after its row was
-- stored, changes no game, no event and no user, whatever the server fails to answer, with or without
-- a transaction manager, and whether the handler returns an error or not.
pub route_event-duplicate :
    (env : Env) (s : System)
    → is_recorded s.event s.tables.events ≡ true
    → s.event.id ≡ pos 0
    → s.event.event_type ≢ event_game_initialized
    → let t = (route_event env s).1.tables in
      (t.games ≡ s.tables.games) × (t.events ≡ s.tables.events) × (t.users ≡ s.tables.users)
unfolding route_event
route_event-duplicate env s r f n =
    let h : IsDuplicate s.tables s = record {
      same_games = refl;
      same_events = refl;
      same_users = refl;
      recorded = r;
      fresh = f;
    } in
    ground (
      arith,
      (started env s.tables).keep s h,
      (finished env s.tables).keep s h,
      (was_cancelled env s.tables).keep s h,
      (drawn env s.tables).keep s h,
      (opened env s.tables).keep s h,
      (insufficient env s.tables).keep s h,
    )
