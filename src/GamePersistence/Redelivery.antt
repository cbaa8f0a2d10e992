-- ===== src/GamePersistence/Redelivery.antt =====
-- What becomes of a `GameStarted` event whose handler failed after the event was recorded.
use pod_backend.Common.{
  true, Text, ℤ, pos, Outcome, ok, err, Outcome-cases, Option-cases, Bool-cases, inl, inr, ◌≡◌, ◌≢◌,
  refl, ◌∙◌, ℕ, arith, is_empty, eqb_ℤ,
}
use pod_backend.Common.Dict.{Dict}
use pod_backend.Database.{Fault, Action, execute, wrap, check, pure, ◌>>=◌, ◌>>◌}
use pod_backend.Database.Events.{is_recorded, upsert_event, insert_event, scanned}
use pod_backend.Database.Games.{get_game, set_game, join_game}
use pod_backend.Database.Keeping.{Keeps, wrap-Keeps}
use pod_backend.Database.Triples.{Triple, Ends, bind-Triple, then-Triple, keep-Triple}
use pod_backend.Database.Users.{ensure_user_by_wallet, insert_user, blockchain_user, write_user}
use pod_backend.Entity.Game.{Game}
use pod_backend.Entity.GameEvent.{GameEvent, event_game_initialized}
use pod_backend.GamePersistence.{
  Env, System, game_started, db, step, serialize_event_data, find_game, persist_event,
  unless_duplicate, broadcast_game_update, release_join_reservation,
  release_cancel_reservation_if_unavailable, release_expired_claim_if_resolved,
}
use pod_backend.GamePersistence.Duplicates.{route_event-duplicate}
use pod_backend.GamePersistence.Handlers.{handle_game_started, start_game, route_event}
use pod_backend.GamePersistence.Keeping.{expects-Keeps, read-Keeps, current-Keeps}

abbrev HasGames : Dict ℤ Game → System → Type 0
HasGames g s = s.tables.games ≡ g

abbrev Anything : {A : Type 0} → A → System → Type 0
Anything _ _ = Unit {0}

module _ (env : Env) (g : Dict ℤ Game) where
  find_game-HasGames : Keeps (HasGames g) (find_game env)
  unfolding find_game get_game execute wrap db
  find_game-HasGames = record { keep = λ s h. ground arith }

  serialize-HasGames : Keeps (HasGames g) (serialize_event_data env)
  unfolding serialize_event_data
  serialize-HasGames = record {
    keep = λ s h. elim (Bool-cases (is_empty s.event.payload)) [
      | inl e ↦ elim (Option-cases s.event.event_data) [
        | inl n ↦ ground arith
        | inr (d, n) ↦ elim (Outcome-cases (env.marshal d)) [
          | inl (p, m) ↦ ground arith
          | inr (m, f) ↦ ground arith
        ]
      ]
      | inr e ↦ ground arith
    ];
  }

  persist_event-HasGames : Keeps (HasGames g) (persist_event env)
  unfolding persist_event upsert_event execute insert_event scanned ◌>>=◌ ◌>>◌ wrap check pure
  persist_event-HasGames = record { keep = λ s h. ground arith }

  ensure_user-HasGames : (w : Text) → Keeps (HasGames g) (db (ensure_user_by_wallet env.server w))
  unfolding db ensure_user_by_wallet execute insert_user blockchain_user write_user ◌>>=◌ wrap pure
  ensure_user-HasGames w = record { keep = λ s h. ground arith }

  steady :
      {A : Type 0} (m : Action System A)
      → Keeps (HasGames g) m
      → Triple (HasGames g) (λ _. HasGames g) (HasGames g) m
  steady m k = keep-Triple (HasGames g) (HasGames g) m (λ s h. h) k

  -- The join writes the game or fails, and what follows it does not fail.
  join-Triple :
      (i : ℤ) (two hash : Text) (at : ℕ)
      → Triple
          (HasGames g)
          Anything
          (HasGames g)
          (wrap "failed to join game" (db (join_game env.server i two hash at)))
  unfolding join_game db wrap execute set_game
  join-Triple i two hash at = record { run = λ s h. ground arith }

  released-Triple :
      (i : ℤ)
      → Triple (Anything tt) Anything (HasGames g) (do
        step (release_join_reservation env i)
        step (release_cancel_reservation_if_unavailable env i)
        step (broadcast_game_update env i game_started)
        step (release_expired_claim_if_resolved env i))
  unfolding step ◌>>◌ ◌>>=◌
  released-Triple i = record { run = λ s h. tt }

  start_game-Triple : (two : Text) → Triple (HasGames g) Anything (HasGames g) (start_game env two)
  unfolding start_game
  start_game-Triple two =
      bind-Triple (HasGames g) (HasGames g) (λ _. HasGames g) Anything _ _
        (steady _ (current-Keeps (HasGames g)))
        (λ e.
          then-Triple (HasGames g) (HasGames g) (HasGames g) Anything _ _
            (steady _ (wrap-Keeps (HasGames g) _ _ (ensure_user-HasGames two)))
            (then-Triple (HasGames g) (HasGames g) (Anything tt) Anything _ _
              (join-Triple e.game_id two e.transaction_hash e.timestamp)
              (released-Triple e.game_id)))

  unless-Triple :
      (rest : Action System (Unit {0}))
      → Triple (HasGames g) Anything (HasGames g) rest
      → Triple (HasGames g) Anything (HasGames g) (unless_duplicate rest)
  unfolding unless_duplicate
  unless-Triple rest k = record {
    run = λ s h. elim (Bool-cases (eqb_ℤ s.event.id (pos 0))) [
      | inl e ↦ rw e tt
      | inr e ↦ rw e (k.run s h)
    ];
  }

  started : Triple (HasGames g) Anything (HasGames g) (handle_game_started env)
  unfolding handle_game_started
  started =
      then-Triple (HasGames g) (HasGames g) (HasGames g) Anything _ _
        (steady _ (expects-Keeps (HasGames g) _))
        (bind-Triple (HasGames g) (HasGames g) (λ _. HasGames g) Anything _ _
          (steady _ (read-Keeps (HasGames g) _))
          (λ two.
            bind-Triple (HasGames g) (HasGames g) (λ _. HasGames g) Anything _ _
              (steady _ find_game-HasGames)
              (λ _.
                then-Triple (HasGames g) (HasGames g) (HasGames g) Anything _ _
                  (steady _ serialize-HasGames)
                  (then-Triple (HasGames g) (HasGames g) (HasGames g) Anything _ _
                    (steady _ persist_event-HasGames) (unless-Triple _ (start_game-Triple two))))))

failed :
    (g : Dict ℤ Game) (r : Outcome Fault (Unit {0}) × System) (f : Fault)
    → r.0 ≡ err f
    → Ends Anything (HasGames g) r
    → r.1.tables.games ≡ g
failed g (ok a, s) f e h = absurd (ground arith)
failed g (err m, s) f e h = h

-- If the handler of a `GameStarted` event fails once the event is recorded, the event that is delivered
-- again in a new object never joins the game: whatever the server then answers, the games are those
-- from before the first delivery.
pub handle_game_started-lost :
    (env env' : Env) (s : System) (f : Fault) (e : GameEvent)
    → (handle_game_started env s).0 ≡ err f
    → is_recorded e (handle_game_started env s).1.tables.events ≡ true
    → e.id ≡ pos 0
    → e.event_type ≢ event_game_initialized
    → (route_event env' (record (handle_game_started env s).1 { event = e })).1.tables.games
      ≡ s.tables.games
handle_game_started-lost env env' s f e failure recorded fresh other =
    let s1 = (handle_game_started env s).1 in
    (route_event-duplicate env' (record s1 { event = e }) recorded fresh other).0
    ∙ failed s.tables.games (handle_game_started env s) f failure
        ((started env s.tables.games).run s refl)
