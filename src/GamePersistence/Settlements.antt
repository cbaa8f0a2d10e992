-- ===== src/GamePersistence/Settlements.antt =====
-- A `GameFinished` event that is new settles its game and the statistics exactly once, in both modes of
-- `HandleGameFinished`.
use pod_backend.Common.{
  suc, ◌<◌, Bool, true, false, List, [], ◌∷◌, ◌++◌, Text, ℤ, pos, eqb_ℤ, eqb_ℤ_iff, Outcome, ok,
  err, Outcome-cases, Option-cases, Bool-cases, inl, inr, ◌≡◌, ◌≢◌, refl, sym, ap, ◌∙◌,
  if◌then◌else◌, ℕ, arith, is_empty,
}
use pod_backend.Database.{Tables, Fault, execute, wrap, check, pure, ◌>>=◌, ◌>>◌}
use pod_backend.Database.Events.{
  upsert_event, insert_event, is_recorded, same_event, scanned, event_row,
}
use pod_backend.Database.Games.{completed}
use pod_backend.Database.Keeping.{Keeps}
use pod_backend.Database.Tallies.{Holds, tallies, rewrite_game, Unknown}
use pod_backend.Database.Triples.{Triple, Ends, then-Triple}
use pod_backend.Entity.GameEvent.{GameEvent}
use pod_backend.GamePersistence.{
  Env, System, db, persist_event, serialize_event_data, with_tx, answer, committed, rolled_back,
  unless_duplicate,
}
use pod_backend.GamePersistence.Duplicates.{is_recorded-payload}
use pod_backend.GamePersistence.Handlers.{in_transaction}
use pod_backend.GamePersistence.Settling.{Settlement, settle_game, finish_game}
use pod_backend.GamePersistence.Statistics.{finish_game-Ends, settle_tallies}

-- The rows are those of some tables, and the event is one that they do not hold.
pub record IsNew (t : Tables) (e : GameEvent) (s : System) : Type 0 where
  pub games : s.tables.games ≡ t.games
  pub events : s.tables.events ≡ t.events
  pub users : s.tables.users ≡ t.users
  pub numbered : 0 < s.tables.next_event_id
  pub unrecorded : is_recorded s.event s.tables.events ≡ false
  pub same_id : s.event.game_id ≡ e.game_id
  pub same_hash : s.event.transaction_hash ≡ e.transaction_hash
  pub same_time : s.event.timestamp ≡ e.timestamp
  pub same_data : s.event.event_data ≡ e.event_data
  pub same_kind : s.event.event_type ≡ e.event_type

-- The game is settled, the statistics are counted, and the event is recorded.
pub record IsSettled (t : Tables) (e : GameEvent) (x : Settlement) (s : System) : Type 0 where
  pub game_written :
      s.tables.games
      ≡ rewrite_game e.game_id (completed x.winner x.payout e.transaction_hash e.timestamp) t.games
  pub counted :
      (w : Text) → tallies s.tables.users w ≡ settle_tallies x.winner x.loser (tallies t.users) w
  pub recorded : is_recorded e s.tables.events ≡ true

-- The event is recorded, and its object has an id.
record IsStored (t : Tables) (e : GameEvent) (s : System) : Type 0 where
  held : Holds t.games s.tables.events (tallies t.users) s.tables
  stored : is_recorded s.event s.tables.events ≡ true
  has_id : s.event.id ≢ pos 0
  its_game : s.event.game_id ≡ e.game_id
  its_hash : s.event.transaction_hash ≡ e.transaction_hash
  its_time : s.event.timestamp ≡ e.timestamp
  its_kind : s.event.event_type ≡ e.event_type

-- A new row is found under its key from then on.
is_recorded-append_self :
    (e : GameEvent) (i now : ℕ) (es : List GameEvent)
    → is_recorded e (es ++ event_row e i now ∷ []) ≡ true
unfolding is_recorded same_event event_row
is_recorded-append_self e i now [] = ground arith
is_recorded-append_self e i now (x ∷ es) = ground (arith, is_recorded-append_self e i now es)

is_recorded-key :
    (a b : GameEvent) (es : List GameEvent)
    → a.game_id ≡ b.game_id
    → a.transaction_hash ≡ b.transaction_hash
    → a.event_type ≡ b.event_type
    → is_recorded a es ≡ is_recorded b es
unfolding is_recorded same_event
is_recorded-key a b [] p q r = refl
is_recorded-key a b (x ∷ es) p q r = ground (arith, is_recorded-key a b es p q r)

-- Neither the id of the object nor its time of creation is part of the key.
is_recorded-object :
    (e : GameEvent) (i : ℤ) (c : ℕ) (es : List GameEvent)
    → is_recorded (record e { id = i; created_at = c }) es ≡ is_recorded e es
unfolding is_recorded same_event
is_recorded-object e i c [] = refl
is_recorded-object e i c (x ∷ es) = ground (arith, is_recorded-object e i c es)

module _ (env : Env) (t : Tables) (e : GameEvent) where
  pub serialize-IsNew : Keeps (IsNew t e) (serialize_event_data env)
  unfolding serialize_event_data
  serialize-IsNew = record {
    keep = λ s h. elim (Bool-cases (is_empty s.event.payload)) [
      | inl y ↦ elim (Option-cases s.event.event_data) [
        | inl n ↦ ground arith
        | inr (d, n) ↦ elim (Outcome-cases (env.marshal d)) [
          | inl (p, m) ↦ ground (arith, is_recorded-payload s.event p s.tables.events)
          | inr (m, f) ↦ ground arith
        ]
      ]
      | inr y ↦ ground arith
    ];
  }

  -- The row of a new event is inserted, and its object gets an id that is not 0.
  inserted :
      (s : System)
      → IsNew t e s
      → (now : ℕ)
      → IsStored t e (record s {
        tables = record s.tables {
          events = s.tables.events ++ event_row s.event s.tables.next_event_id now ∷ [];
          next_event_id = suc s.tables.next_event_id;
          statements = suc s.tables.statements;
        };
        event = record s.event { id = pos s.tables.next_event_id; created_at = now };
      })
  inserted s h now = record {
    held = record {
      same_games = h.games;
      same_events = refl;
      same_tallies = λ w. ap (λ u. tallies u w) h.users;
    };
    stored =
        is_recorded-object s.event (pos s.tables.next_event_id) now _
        ∙ is_recorded-append_self s.event s.tables.next_event_id now s.tables.events;
    has_id = λ z. ground (arith, h.numbered);
    its_game = h.same_id;
    its_hash = h.same_hash;
    its_time = h.same_time;
    its_kind = h.same_kind;
  }

  persist_event-Ends :
      (s : System) → IsNew t e s → Ends (λ _. IsStored t e) Unknown (persist_event env s)
  unfolding persist_event upsert_event execute insert_event scanned ◌>>=◌ ◌>>◌ wrap check pure
      event_row
  persist_event-Ends s h =
      ground (arith, h.unrecorded, inserted s h (env.server.clock s.tables.statements))

  module _ (x : Settlement) where
    settled-Ends :
        (s : System)
        → IsStored t e s
        → (r : Outcome Fault (Unit {0}) × System)
        → Ends
            (λ _ (s' : System).
              Holds
                (rewrite_game s.event.game_id
                  (completed x.winner x.payout s.event.transaction_hash s.event.timestamp)
                  t.games)
                s.tables.events
                (settle_tallies x.winner x.loser (tallies t.users))
                s'.tables)
            Unknown
            r
        → Ends (λ _. IsSettled t e x) Unknown r
    settled-Ends s h (ok a, s') q = record {
      game_written = rw (h.its_game, h.its_hash, h.its_time) at q.same_games;
      counted = q.same_tallies;
      recorded =
          ap (λ l. is_recorded e l) q.same_events
          ∙ sym (is_recorded-key s.event e s.tables.events h.its_game h.its_hash h.its_kind)
          ∙ h.stored;
    }
    settled-Ends s h (err f, s') q = tt

    finished :
        Triple (IsStored t e) (λ _. IsSettled t e x) Unknown (unless_duplicate (finish_game env x))
    unfolding unless_duplicate
    finished = record {
      run = λ s h. elim (Bool-cases (eqb_ℤ s.event.id (pos 0))) [
        | inl y ↦ absurd (h.has_id ((eqb_ℤ_iff s.event.id (pos 0)).0 y))
        | inr n ↦ rw n (
            settled-Ends s h (finish_game env x s)
              (finish_game-Ends env s.tables.events x t.games (tallies t.users) s h.held))
      ];
    }

    settle_game-Triple : Triple (IsNew t e) (λ _. IsSettled t e x) Unknown (settle_game env x)
    unfolding settle_game
    settle_game-Triple =
        then-Triple (IsNew t e) Unknown (IsStored t e) _ _ _ (record { run = persist_event-Ends })
          finished

    begun : (s : System) → IsNew t e s → IsNew t e (db (execute env.server (answer env)) s).1
    unfolding db execute answer
    begun s h = ground arith

    kept :
        (s : System)
        → IsSettled t e x s
        → IsSettled t e x (db (execute env.server (answer env)) s).1
    unfolding db execute answer
    kept s h = elim (Bool-cases (env.server.fails s.tables.statements)) [
      | inl y ↦
          rw y
            (record { game_written = h.game_written; counted = h.counted; recorded = h.recorded })
      | inr n ↦
          rw n
            (record { game_written = h.game_written; counted = h.counted; recorded = h.recorded })
    ]

    committed-Ends :
        (s s' : System)
        → IsSettled t e x s'
        → Ends (λ _. IsSettled t e x) Unknown (committed env s s')
    unfolding committed
    committed-Ends s s' h = elim (Outcome-cases (db (execute env.server (answer env)) s').0) [
      | inl (a, q) ↦ rw (q, committed) (kept s' h)
      | inr (m, q) ↦ rw (q, committed) tt
    ]

    failed-Ends :
        (s s' : System) (m : Fault)
        → Ends {A = Unit {0}} (λ _. IsSettled t e x) Unknown (rolled_back env s m s')
    unfolding rolled_back
    failed-Ends s s' m = elim (Outcome-cases (db (execute env.server (answer env)) s').0) [
      | inl (a, q) ↦ rw (q, rolled_back) tt
      | inr (n, q) ↦ rw (q, rolled_back) tt
    ]

    -- The body between the start and the commit of a transaction.
    after_body :
        (s : System) (r : Outcome Fault (Unit {0}) × System)
        → Ends (λ _. IsSettled t e x) Unknown r
        → Ends {A = Unit {0}}
            (λ _. IsSettled t e x)
            Unknown
            (elim r.0 [ ok _ ↦ committed env s r.1 | err m ↦ rolled_back env s m r.1 ])
    after_body s (ok a, s') q = committed-Ends s s' q
    after_body s (err m, s') q = failed-Ends s s' m

    with_tx-Ends :
        (s : System)
        → IsNew t e s
        → Ends (λ _. IsSettled t e x) Unknown (with_tx env (settle_game env x) s)
    unfolding with_tx
    with_tx-Ends s h =
        let s1 = (db (execute env.server (answer env)) s).1 in
        elim (Outcome-cases (db (execute env.server (answer env)) s).0) [
          | inl (a, q) ↦
              rw (q, with_tx)
                (after_body s (settle_game env x s1) (settle_game-Triple.run s1 (begun s h)))
          | inr (m, q) ↦ rw (q, with_tx) tt
        ]

    chosen :
        (b : Bool) (y z : Outcome Fault (Unit {0}) × System)
        → Ends (λ _. IsSettled t e x) Unknown y
        → Ends (λ _. IsSettled t e x) Unknown z
        → Ends (λ _. IsSettled t e x) Unknown (if b then y else z)
    chosen true y z h k = h
    chosen false y z h k = k

    -- In both modes.
    pub in_transaction-Triple :
        Triple (IsNew t e) (λ _. IsSettled t e x) Unknown (in_transaction env (settle_game env x))
    unfolding in_transaction
    in_transaction-Triple = record {
      run = λ s h.
          chosen s.transactional (with_tx env (settle_game env x) s) (settle_game env x s)
            (with_tx-Ends s h) (settle_game-Triple.run s h);
    }
