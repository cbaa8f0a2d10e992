-- ===== src/GamePersistence.antt =====
-- internal/usecase/game_persistence.go: the state of the use case, and the steps that the handlers of
-- GamePersistence/Handlers.antt are made of. The user repository is set, as the constructor is given it.
pub mod Extract
pub mod Settling
pub mod Creating
pub mod Handlers
pub mod Keeping
pub mod Duplicates
pub mod Fitting
pub mod Consistency
pub mod Atomicity
pub mod Statistics
pub mod Settlements
pub mod Finished
pub mod Redelivery
pub mod Releases
pub mod Started
pub mod Ended
use Prim.Native.String.{String}
use pod_backend.Common.{
  ℕ, Bool, true, false, not, Option, none, some, List, [], ◌∷◌, ◌++◌, Text, is_empty, ℤ, pos, eqb_ℤ,
  eqb, text_eq, Outcome, ok, err, if◌then◌else◌,
}
use pod_backend.Database.{
  Tables, Server, Fault, message, wrapped, Action, pure, throw, wrap, ◌>>=◌, ◌>>◌, execute,
}
use pod_backend.Database.Events.{upsert_event}
use pod_backend.Database.Games.{get_game}
use pod_backend.CancelReservation.{release_on_unavailable}
use pod_backend.Entity.Game.{Game}
use pod_backend.Entity.GameEvent.{GameEvent, EventData, validate_event}
use pod_backend.ExpiredClaim.{release_on_resolved}
use pod_backend.Ledger.{Ledger, Effect, World}
use pod_backend.Reservation.{release_on_join}
use pod_backend.RevealReservation.{release_on_terminal}
use pod_backend.Wallet.{AddressLib}

-- `GameEventType` of game_broadcast.go.
pub data GameEventType : Type 0 where
  game_initialized game_started game_finished game_cancelled draw : GameEventType
  secret_opened insufficient_balance : GameEventType

-- What the use case calls that is not modelled here: `int64(v)` of a `float64`, `json.Marshal` of the
-- event data, and what the coordination use cases take.
pub record Env : Type 0 where
  pub server : Server
  pub to_int64 : ℕ → ℤ
  pub marshal : EventData → Outcome String Text
  pub lib : AddressLib
  pub world : World

-- The collaborators: the tables, the event object that the caller holds, the coordination use cases
-- that are set, whether there is a transaction manager and a broadcaster, and what they were told.
pub record System : Type 0 where
  pub tables : Tables
  pub event : GameEvent
  pub joins : Option Ledger
  pub cancels : Option Ledger
  pub reveals : Option Ledger
  pub claims : Option Ledger
  pub transactional : Bool
  pub broadcasting : Bool
  pub effects : List Effect
  pub updates : List (Game × GameEventType)

-- A call of a repository.
unfoldable pub db : {A : Type 0} → Action Tables A → Action System A
db m s = let (r, t) = m s.tables in (r, record s { tables = t })

-- A step that returns no error.
unfoldable pub step : (System → System) → Action System (Unit {0})
step f s = (ok tt, f s)

-- An error of a reader of the event data ends the handler.
unfoldable pub read : {A : Type 0} → (EventData → Outcome Fault A) → Action System A
read f s = elim (f (elim s.event.event_data [ none ↦ [] | some d ↦ d ])) [
  | ok a ↦ (ok a, s)
  | err e ↦ (err (wrapped "invalid event data" e), s)
]

-- The two tests at the start of each handler.
unfoldable pub expects : Text → Action System (Unit {0})
expects kind s = elim (validate_event s.event) [
  | some m ↦ (err (wrapped "validation failed" (message m)), s)
  | none ↦
      if eqb s.event.event_type kind then (ok tt, s) else (err (message "invalid event type"), s)
]

-- The event object that the caller holds.
unfoldable pub current : Action System GameEvent
current s = (ok s.event, s)

module _ (env : Env) where
  -- `GetByID` of the event's game.
  unfoldable pub find_game : Action System Game
  find_game s = wrap "game not found" (db (get_game env.server s.event.game_id)) s

  -- `serializeEventData`
  unfoldable pub serialize_event_data : Action System (Unit {0})
  serialize_event_data s =
      if not (is_empty s.event.payload) then (ok tt, s) else elim s.event.event_data [
        | none ↦ (ok tt, s)
        | some d ↦ elim (env.marshal d) [
          | err m ↦ (err (wrapped "failed to serialize event data" (message m)), s)
          | ok p ↦ (ok tt, record s { event = record s.event { payload = p } })
        ]
      ]

  -- `Upsert` of the event, which writes its id and its time of creation.
  unfoldable pub persist_event : Action System (Unit {0})
  persist_event s =
      let (r, t) = upsert_event env.server s.event s.tables in
      elim r [
        | err e ↦ (err (wrapped "failed to persist event" e), record s { tables = t })
        | ok e ↦ (ok tt, record s { tables = t; event = e })
      ]

  -- `WithTx`: after an error, or if the commit fails, the rows are those from before; the sequences and
  -- the event object are not.
  unfoldable pub undo : System → System → System
  undo s s' = record s' {
    tables = record s'.tables {
      games = s.tables.games;
      events = s.tables.events;
      users = s.tables.users;
    };
  }

  unfoldable pub answer : ℕ → Action Tables (Unit {0})
  answer _ t = (ok tt, t)

  unfoldable pub rolled_back : System → Fault → Action System (Unit {0})
  unfolding undo answer
  rolled_back s e s' =
      let (r, s'') = db (execute env.server answer) s' in
      (elim r [ ok _ ↦ err e | err _ ↦ err (wrapped "rollback failed" e) ], undo s s'')

  unfoldable pub committed : System → Action System (Unit {0})
  unfolding undo answer
  committed s s' =
      let (r, s'') = db (execute env.server answer) s' in
      elim r [ ok _ ↦ (ok tt, s'') | err e ↦ (err (wrapped "commit transaction" e), undo s s'') ]

  unfoldable pub with_tx : Action System (Unit {0}) → Action System (Unit {0})
  unfolding answer rolled_back committed
  with_tx body s =
      let (r, s1) = db (execute env.server answer) s in
      elim r [
        | err e ↦ (err (wrapped "begin transaction" e), s1)
        | ok _ ↦
            let (r', s2) = body s1 in elim r' [ ok _ ↦ committed s s2 | err e ↦ rolled_back s e s2 ]
      ]

  -- `broadcastGameUpdate`: a game that cannot be read is not broadcast.
  unfoldable pub broadcast_game_update : ℤ → GameEventType → System → System
  broadcast_game_update g kind s =
      if not s.broadcasting
      then s
      else (let (r, t) = get_game env.server g s.tables in
          elim r [
            | err _ ↦ record s { tables = t }
            | ok game ↦ record s { tables = t; updates = s.updates ++ (game, kind) ∷ [] }
          ])

  -- The call of `ReleaseOnJoin`.
  unfoldable pub release_join_reservation : ℤ → System → System
  release_join_reservation g s = elim s.joins [
    | none ↦ s
    | some l ↦
        let (l', told) = release_on_join env.lib env.world l g in
        record s { joins = some l'; effects = s.effects ++ told }
  ]

  -- `releaseCancelReservationIfUnavailable`
  unfoldable pub release_cancel_reservation_if_unavailable : ℤ → System → System
  release_cancel_reservation_if_unavailable g s = elim s.cancels [
    | none ↦ s
    | some l ↦
        let (l', told) = release_on_unavailable env.lib env.world l g "resolved" in
        record s { cancels = some l'; effects = s.effects ++ told }
  ]

  -- `releaseRevealReservationIfAny`
  unfoldable pub release_reveal_reservation_if_any : ℤ → System → System
  release_reveal_reservation_if_any g s = elim s.reveals [
    | none ↦ s
    | some l ↦
        let (l', told) = release_on_terminal env.lib env.world l g in
        record s { reveals = some l'; effects = s.effects ++ told }
  ]

  -- `releaseExpiredClaimIfResolved`
  unfoldable pub release_expired_claim_if_resolved : ℤ → System → System
  release_expired_claim_if_resolved g s = elim s.claims [
    | none ↦ s
    | some l ↦
        let (l', told) = release_on_resolved env.lib env.world l g in
        record s { claims = some l'; effects = s.effects ++ told }
  ]

-- `if event.ID == 0 { return nil }`
unfoldable pub unless_duplicate : Action System (Unit {0}) → Action System (Unit {0})
unless_duplicate rest s = if eqb_ℤ s.event.id (pos 0) then (ok tt, s) else rest s
