-- ===== src/GamePersistence/Atomicity.antt =====
-- `HandleGameFinished` with a transaction manager: all of it, or nothing.
use pod_backend.Common.{
  Bool, true, false, Outcome, ok, err, Outcome-cases, Option-cases, Bool-cases, inl, inr, ◌≡◌, ◌⊎◌,
  refl, if◌then◌else◌, arith, is_empty,
}
use pod_backend.Database.{Tables, Fault, Action, execute, wrap, ◌>>=◌, ◌>>◌}
use pod_backend.Database.Games.{get_game}
use pod_backend.Database.Keeping.{Keeps}
use pod_backend.Database.Triples.{Triple, Ends, bind-Triple, then-Triple, keep-Triple}
use pod_backend.GamePersistence.{
  Env, System, GameEventType, db, step, serialize_event_data, with_tx, find_game, undo, answer,
  committed, rolled_back, unless_duplicate, current,
}
use pod_backend.GamePersistence.Handlers.{handle_game_finished, in_transaction, release_finished}
use pod_backend.GamePersistence.Keeping.{expects-Keeps, read-Keeps}

-- The rows are those of some tables.
pub record HasRows (t : Tables) (s : System) : Type 0 where
  pub games : s.tables.games ≡ t.games
  pub events : s.tables.events ≡ t.events
  pub users : s.tables.users ≡ t.users

-- The transaction manager is set too.
abbrev Managed : Tables → System → Type 0
Managed t s = HasRows t s × (s.transactional ≡ true)

abbrev Anything : {A : Type 0} → A → System → Type 0
Anything _ _ = Unit {0}

module _ (env : Env) (t : Tables) where
  find_game-Managed : Keeps (Managed t) (find_game env)
  unfolding find_game get_game execute wrap db
  find_game-Managed = record { keep = λ s h. ground arith }

  serialize-Managed : Keeps (Managed t) (serialize_event_data env)
  unfolding serialize_event_data
  serialize-Managed = record {
    keep = λ s h. elim (Bool-cases (is_empty s.event.payload)) [
      | inl e ↦ elim (Option-cases s.event.event_data) [
        | inl n ↦ ground arith
        | inr (d, n) ↦ elim (Outcome-cases (env.marshal d)) [
          | inl (p, m) ↦ ground arith
          | inr (m, f) ↦ ground arith
        ]
      ]
      | inr e ↦ ground arith
    ];
  }

  undone : (s s' : System) → HasRows t s → HasRows t (undo env s s')
  unfolding undo
  undone s s' h = record { games = h.games; events = h.events; users = h.users }

  committed-Ends : (s s' : System) → HasRows t s → Ends Anything (HasRows t) (committed env s s')
  unfolding committed
  committed-Ends s s' h = elim (Outcome-cases (db (execute env.server (answer env)) s').0) [
    | inl (a, e) ↦ rw (e, committed) tt
    | inr (m, e) ↦ rw (e, committed) (undone s (db (execute env.server (answer env)) s').1 h)
  ]

  rolled_back-Ends :
      (s s' : System) (m : Fault) → HasRows t s → Ends Anything (HasRows t) (rolled_back env s m s')
  unfolding rolled_back
  rolled_back-Ends s s' m h = elim (Outcome-cases (db (execute env.server (answer env)) s').0) [
    | inl (a, e) ↦ rw (e, rolled_back) (undone s (db (execute env.server (answer env)) s').1 h)
    | inr (n, e) ↦ rw (e, rolled_back) (undone s (db (execute env.server (answer env)) s').1 h)
  ]

  begun : (s : System) → HasRows t s → HasRows t (db (execute env.server (answer env)) s).1
  unfolding db execute answer
  begun s h = ground arith

  with_tx-Ends :
      (body : Action System (Unit {0})) (s : System)
      → HasRows t s
      → Ends Anything (HasRows t) (with_tx env body s)
  unfolding with_tx
  with_tx-Ends body s h =
      let s1 = (db (execute env.server (answer env)) s).1 in
      elim (Outcome-cases (db (execute env.server (answer env)) s).0) [
        | inl (a, e) ↦ elim (Outcome-cases (body s1).0) [
          | inl (b, f) ↦ rw (e, with_tx) (rw f (committed-Ends s (body s1).1 h))
          | inr (m, f) ↦ rw (e, with_tx) (rw f (rolled_back-Ends s (body s1).1 m h))
        ]
        | inr (m, e) ↦ rw (e, with_tx) (begun s h)
      ]

  chosen :
      (b : Bool) (x y : Outcome Fault (Unit {0}) × System)
      → b ≡ true
      → Ends Anything (HasRows t) x
      → Ends Anything (HasRows t) (if b then x else y)
  chosen true x y e h = h
  chosen false x y e h = absurd (ground arith)

  in_transaction-Triple :
      (body : Action System (Unit {0}))
      → Triple (Managed t) Anything (HasRows t) (in_transaction env body)
  unfolding in_transaction
  in_transaction-Triple body = record {
    run = λ s h. chosen s.transactional (with_tx env body s) (body s) h.1 (with_tx-Ends body s h.0);
  }

  -- What follows the transaction returns no error.
  released :
      (kind : GameEventType)
      → Triple (Anything tt) Anything (HasRows t) (unless_duplicate (release_finished env kind))
  unfolding unless_duplicate release_finished current ◌>>=◌ ◌>>◌ step
  released kind = record { run = λ s h. ground arith }

  steady :
      {A : Type 0} (m : Action System A)
      → Keeps (Managed t) m
      → Triple (Managed t) (λ _. Managed t) (HasRows t) m
  steady m k = keep-Triple (Managed t) (HasRows t) m (λ s h. h.0) k

  finished : Triple (Managed t) Anything (HasRows t) (handle_game_finished env)
  unfolding handle_game_finished
  finished =
      then-Triple (Managed t) (HasRows t) (Managed t) Anything _ _
        (steady _ (expects-Keeps (Managed t) _))
        (bind-Triple (Managed t) (HasRows t) (λ _. Managed t) Anything _ _
          (steady _ find_game-Managed)
          (λ game.
            then-Triple (Managed t) (HasRows t) (Managed t) Anything _ _
              (steady _ serialize-Managed)
              (bind-Triple (Managed t) (HasRows t) (λ _. Managed t) Anything _ _
                (steady _ (read-Keeps (Managed t) _))
                (λ winner.
                  bind-Triple (Managed t) (HasRows t) (λ _. Managed t) Anything _ _
                    (steady _ (read-Keeps (Managed t) _))
                    (λ payout.
                      then-Triple (Managed t) (HasRows t) (Anything tt) Anything _ _
                        (in_transaction-Triple _) (released _))))))

ended :
    (t : Tables) (r : Outcome Fault (Unit {0}) × System)
    → Ends Anything (HasRows t) r
    → (r.0 ≡ ok tt) ⊎ HasRows t r.1
ended t (ok tt, s) h = inl refl
ended t (err e, s) h = inr h

-- With a transaction manager, `HandleGameFinished` returns no error, or leaves every game, event and
-- user as it was, at whichever statement the server fails, the commit and the rollback included.
pub handle_game_finished-atomic :
    (env : Env) (s : System)
    → s.transactional ≡ true
    → let (r, s') = handle_game_finished env s in
      (r ≡ ok tt)
      ⊎ ((s'.tables.games ≡ s.tables.games)
          × (s'.tables.events ≡ s.tables.events)
          × (s'.tables.users ≡ s.tables.users))
handle_game_finished-atomic env s m =
    let here : HasRows s.tables s = record { games = refl; events = refl; users = refl } in
    elim (ended s.tables (handle_game_finished env s) ((finished env s.tables).run s (here, m))) [
      | inl e ↦ inl e
      | inr h ↦ inr (h.games, h.events, h.users)
    ]
