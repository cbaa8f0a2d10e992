-- ===== src/GamePersistence/Fitting.antt =====
-- The steps that the handlers of internal/usecase/game_persistence.go share, and consistent tables.
use pod_backend.Common.{
  Text, ℤ, Outcome, ok, err, Outcome-cases, Option-cases, Bool-cases, inl, inr, arith, is_empty,
}
use pod_backend.Database.{Tables, Fault, Action, wrap}
use pod_backend.Database.Consistency.{IsConsistent}
use pod_backend.Database.Counters.{Slack}
use pod_backend.Database.Events.{upsert_event}
use pod_backend.Database.Games.{get_game}
use pod_backend.Database.Keeping.{Keeps, Takes, Leads, After}
use pod_backend.Database.Statements.{get_game-keeps, upsert_event-keeps}
use pod_backend.Entity.Game.{Game}
use pod_backend.GamePersistence.{
  Env, System, GameEventType, db, step, serialize_event_data, persist_event, find_game,
  broadcast_game_update, release_join_reservation, release_cancel_reservation_if_unavailable,
  release_reveal_reservation_if_any, release_expired_claim_if_resolved,
}

-- The tables of a state are consistent.
abbrev pub Fits : System → Type 0
Fits s = IsConsistent s.tables

pub db-Keeps : {A : Type 0} (m : Action Tables A) → Keeps IsConsistent m → Keeps Fits (db m)
unfolding db
db-Keeps m k = record { keep = λ s h. k.keep s.tables h }

-- A game that is made from what was read.
pub made-Keeps : (f : System → Game) → Keeps Fits (λ s. (ok (f s), s))
made-Keeps f = record { keep = λ s h. h }

abbrev pub Room : Text → System → Type 0
Room w s = Slack w s.tables

lifted :
    {A : Type 0} (Q : Tables → Type 0) (r : Outcome Fault A × Tables) (s : System)
    → After IsConsistent Q r
    → After Fits (λ s. Q s.tables) (r.0, record s { tables = r.1 })
lifted Q (ok a, t) s h = h
lifted Q (err e, t) s h = h

pub db-Leads :
    {A : Type 0} (Q : Tables → Type 0) (m : Action Tables A)
    → Leads IsConsistent Q m
    → Leads Fits (λ s. Q s.tables) (db m)
unfolding db
db-Leads Q m l = record { lead = λ s h. lifted Q (m s.tables) s (l.lead s.tables h) }

pub db-Takes :
    {A : Type 0} (Q : Tables → Type 0) (m : Action Tables A)
    → Takes Q IsConsistent m
    → Takes (λ s. Q s.tables) Fits (db m)
unfolding db
db-Takes Q m t = record { take = λ s h. t.take s.tables h }

module _ (env : Env) where
  pub persist_event-Keeps : Keeps Fits (persist_event env)
  unfolding persist_event
  persist_event-Keeps = record {
    keep = λ s h. elim (Outcome-cases (upsert_event env.server s.event s.tables).0) [
      | inl (e, p) ↦ rw (p, persist_event) ((upsert_event-keeps env.server s.event).keep s.tables h)
      | inr (e, p) ↦ rw (p, persist_event) ((upsert_event-keeps env.server s.event).keep s.tables h)
    ];
  }

  pub serialize-Keeps : Keeps Fits (serialize_event_data env)
  unfolding serialize_event_data
  serialize-Keeps = record {
    keep = λ s h. elim (Bool-cases (is_empty s.event.payload)) [
      | inl e ↦ elim (Option-cases s.event.event_data) [
        | inl n ↦ ground arith
        | inr (d, n) ↦ elim (Outcome-cases (env.marshal d)) [
          | inl (p, m) ↦ ground arith
          | inr (m, f) ↦ ground arith
        ]
      ]
      | inr e ↦ ground arith
    ];
  }

  pub find_game-Keeps : Keeps Fits (find_game env)
  unfolding find_game wrap db
  find_game-Keeps = record {
    keep = λ s h. (get_game-keeps env.server s.event.game_id).keep s.tables h;
  }

  pub broadcast-Keeps :
      (g : ℤ) (kind : GameEventType) → Keeps Fits (step (broadcast_game_update env g kind))
  unfolding step broadcast_game_update
  broadcast-Keeps g kind = record {
    keep = λ s h. elim (Bool-cases s.broadcasting) [
      | inl b ↦ elim (Outcome-cases (get_game env.server g s.tables).0) [
        | inl (x, p) ↦ ground (arith, (get_game-keeps env.server g).keep s.tables h)
        | inr (x, p) ↦ ground (arith, (get_game-keeps env.server g).keep s.tables h)
      ]
      | inr b ↦ ground arith
    ];
  }

  pub join-Keeps : (g : ℤ) → Keeps Fits (step (release_join_reservation env g))
  unfolding step release_join_reservation
  join-Keeps g = record {
    keep = λ s h. elim (Option-cases s.joins) [ inl e ↦ ground arith | inr (l, e) ↦ ground arith ];
  }

  pub cancel-Keeps : (g : ℤ) → Keeps Fits (step (release_cancel_reservation_if_unavailable env g))
  unfolding step release_cancel_reservation_if_unavailable
  cancel-Keeps g = record {
    keep =
        λ s h. elim (Option-cases s.cancels) [ inl e ↦ ground arith | inr (l, e) ↦ ground arith ];
  }

  pub reveal-Keeps : (g : ℤ) → Keeps Fits (step (release_reveal_reservation_if_any env g))
  unfolding step release_reveal_reservation_if_any
  reveal-Keeps g = record {
    keep =
        λ s h. elim (Option-cases s.reveals) [ inl e ↦ ground arith | inr (l, e) ↦ ground arith ];
  }

  pub claim-Keeps : (g : ℤ) → Keeps Fits (step (release_expired_claim_if_resolved env g))
  unfolding step release_expired_claim_if_resolved
  claim-Keeps g = record {
    keep = λ s h. elim (Option-cases s.claims) [ inl e ↦ ground arith | inr (l, e) ↦ ground arith ];
  }
