-- ===== src/GamePersistence/Releases.antt =====
-- Which coordination of a game ends with an event of it.
use Prim.Native.String.{String}
use pod_backend.Common.{
  false, Option, some, ℤ, pos, Outcome-cases, Option-cases, Bool-cases, inl, inr, ◌≡◌, ◌⊎◌, refl,
  arith, is_empty, eqb_ℤ, eqb_ℤ_iff, int_eq,
}
use pod_backend.CancelReservation.{release_on_unavailable}
use pod_backend.Database.{Tables, Action, execute, wrap, check, pure, ◌>>=◌, ◌>>◌}
use pod_backend.Database.Events.{upsert_event, insert_event, scanned}
use pod_backend.Database.Keeping.{Keeps, bind-Keeps, then-Keeps, wrap-Keeps, pure-Keeps}
use pod_backend.Database.Tallies.{Unknown}
use pod_backend.Database.Triples.{Triple, keep-Triple}
use pod_backend.ExpiredClaim.{release_on_resolved}
use pod_backend.GamePersistence.{
  Env, System, GameEventType, db, serialize_event_data, find_game, persist_event, unless_duplicate,
  current, broadcast_game_update, release_join_reservation,
  release_cancel_reservation_if_unavailable, release_reveal_reservation_if_any,
  release_expired_claim_if_resolved,
}
use pod_backend.GamePersistence.Keeping.{
  expects-Keeps, read-Keeps, current-Keeps, in_transaction-Keeps, unless_duplicate-Keeps,
}
use pod_backend.Ledger.{Ledger, World, peer_holds, get_active}
use pod_backend.Ledger.Reads.{get_active-close, get_active-forget}
use pod_backend.Entity.Reservation.{released}
use pod_backend.Reservation.{release_on_join}
use pod_backend.RevealReservation.{release_on_terminal}
use pod_backend.Wallet.{AddressLib}

module _ (lib : AddressLib) (w : World) (l : Ledger) (g : ℤ) where
  joins_freed : peer_holds w.now (some (release_on_join lib w l g).0) g ≡ false
  unfolding peer_holds release_on_join
  joins_freed = elim (Option-cases (get_active w.now l g)) [
    | inl e ↦ ground arith
    | inr (r, e) ↦ ground (arith, get_active-close lib released w.now l g g r refl)
  ]

  cancels_freed :
      (reason : String)
      → peer_holds w.now (some (release_on_unavailable lib w l g reason).0) g ≡ false
  unfolding peer_holds release_on_unavailable
  cancels_freed reason = elim (Option-cases (get_active w.now l g)) [
    | inl e ↦ ground arith
    | inr (r, e) ↦ ground (arith, get_active-forget lib w.now l g g r)
  ]

  reveals_freed : peer_holds w.now (some (release_on_terminal lib w l g).0) g ≡ false
  unfolding peer_holds release_on_terminal
  reveals_freed = elim (Option-cases (get_active w.now l g)) [
    | inl e ↦ ground arith
    | inr (r, e) ↦ ground (arith, get_active-close lib released w.now l g g r refl)
  ]

  claims_freed : peer_holds w.now (some (release_on_resolved lib w l g).0) g ≡ false
  unfolding peer_holds release_on_resolved
  claims_freed = elim (Option-cases (get_active w.now l g)) [
    | inl e ↦ ground arith
    | inr (r, e) ↦ ground (arith, get_active-close lib released w.now l g g r refl)
  ]

-- The event is one of the game.
abbrev pub Concerns : ℤ → System → Type 0
Concerns i s = s.event.game_id ≡ i

-- The coordination of a game that a use case holds, if it is set, has ended.
abbrev pub Freed : Env → ℤ → Option Ledger → Type 0
Freed env i o = peer_holds env.world.now o i ≡ false

module _ (env : Env) (i : ℤ) where
  pub db-Concerns : {A : Type 0} (m : Action Tables A) → Keeps (Concerns i) (db m)
  unfolding db
  db-Concerns m = record { keep = λ s h. h }

  pub find_game-Concerns : Keeps (Concerns i) (find_game env)
  unfolding find_game wrap db
  find_game-Concerns = record { keep = λ s h. h }

  pub serialize-Concerns : Keeps (Concerns i) (serialize_event_data env)
  unfolding serialize_event_data
  serialize-Concerns = record {
    keep = λ s h. elim (Bool-cases (is_empty s.event.payload)) [
      | inl e ↦ elim (Option-cases s.event.event_data) [
        | inl n ↦ ground arith
        | inr (d, n) ↦ elim (Outcome-cases (env.marshal d)) [
          | inl (p, m) ↦ ground arith
          | inr (m, f) ↦ ground arith
        ]
      ]
      | inr e ↦ ground arith
    ];
  }

  pub persist_event-Concerns : Keeps (Concerns i) (persist_event env)
  unfolding persist_event upsert_event execute insert_event scanned ◌>>=◌ ◌>>◌ wrap check pure
  persist_event-Concerns = record { keep = λ s h. ground arith }

  pub join_step : (s : System) → Freed env i (release_join_reservation env i s).joins
  unfolding release_join_reservation peer_holds
  join_step s = elim (Option-cases s.joins) [
    | inl e ↦ ground arith
    | inr (l, e) ↦ ground (arith, joins_freed env.lib env.world l i)
  ]

  pub cancel_step :
      (s : System)
      → let s' = release_cancel_reservation_if_unavailable env i s in
        Freed env i s'.cancels × (s'.joins ≡ s.joins) × (s'.event ≡ s.event)
  unfolding release_cancel_reservation_if_unavailable peer_holds
  cancel_step s = elim (Option-cases s.cancels) [
    | inl e ↦ ground arith
    | inr (l, e) ↦ ground (arith, cancels_freed env.lib env.world l i "resolved")
  ]

  pub reveal_step :
      (s : System)
      → let s' = release_reveal_reservation_if_any env i s in
        Freed env i s'.reveals × (s'.cancels ≡ s.cancels) × (s'.event ≡ s.event)
  unfolding release_reveal_reservation_if_any peer_holds
  reveal_step s = elim (Option-cases s.reveals) [
    | inl e ↦ ground arith
    | inr (l, e) ↦ ground (arith, reveals_freed env.lib env.world l i)
  ]

  pub claim_step :
      (s : System)
      → let s' = release_expired_claim_if_resolved env i s in
        Freed env i s'.claims
        × (s'.joins ≡ s.joins)
        × (s'.cancels ≡ s.cancels)
        × (s'.reveals ≡ s.reveals)
        × (s'.event ≡ s.event)
  unfolding release_expired_claim_if_resolved peer_holds
  claim_step s = elim (Option-cases s.claims) [
    | inl e ↦ ground arith
    | inr (l, e) ↦ ground (arith, claims_freed env.lib env.world l i)
  ]

  pub broadcast_step :
      (kind : GameEventType) (s : System)
      → let s' = broadcast_game_update env i kind s in
        (s'.joins ≡ s.joins)
        × (s'.cancels ≡ s.cancels)
        × (s'.reveals ≡ s.reveals)
        × (s'.event ≡ s.event)
  unfolding broadcast_game_update
  broadcast_step kind s = ground arith

  pub steady :
      {A : Type 0} (m : Action System A)
      → Keeps (Concerns i) m
      → Triple (Concerns i) (λ _. Concerns i) Unknown m
  steady m k = keep-Triple (Concerns i) Unknown m (λ s h. tt) k

  pub with_fact :
      {A : Type 0} (F : Type 0) (R : A → System → Type 0) (m : Action System A)
      → (F → Triple (Concerns i) R Unknown m)
      → Triple (λ s. Concerns i s × F) R Unknown m
  with_fact F R m k = record { run = λ s h. (k h.1).run s h.0 }

  pub current-Triple : Triple (Concerns i) (λ e s. Concerns i s × (e.game_id ≡ i)) Unknown current
  unfolding current
  current-Triple = record { run = λ s h. (h, h) }

  pub ruleset concern_rules = (
    then-Keeps, bind-Keeps, wrap-Keeps, expects-Keeps, read-Keeps, current-Keeps, db-Concerns,
    unless_duplicate-Keeps, find_game-Concerns, serialize-Concerns, persist_event-Concerns,
  )

  pub unless-Triple :
      (F : System → Type 0) (rest : Action System (Unit {0}))
      → Triple (Concerns i) (λ _ s. (s.event.id ≡ pos 0) ⊎ F s) Unknown rest
      → Triple (Concerns i) (λ _ s. (s.event.id ≡ pos 0) ⊎ F s) Unknown (unless_duplicate rest)
  unfolding unless_duplicate
  unless-Triple F rest k = record {
    run = λ s h. elim (Bool-cases (eqb_ℤ s.event.id (pos 0))) [
      | inl e ↦ rw e (inl ((eqb_ℤ_iff s.event.id (pos 0)).0 e))
      | inr e ↦ rw e (k.run s h)
    ];
  }
