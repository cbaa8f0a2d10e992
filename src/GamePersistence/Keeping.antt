-- ===== src/GamePersistence/Keeping.antt =====
-- The rules of Database/Keeping.antt for the steps of GamePersistence.antt.
use pod_backend.Common.{
  suc, Bool, true, false, none, some, [], Text, Outcome, Outcome-cases, Option-cases, inl, inr,
  if◌then◌else◌, ℕ, arith,
}
use pod_backend.Database.{Fault, Action, execute}
use pod_backend.Database.Keeping.{Keeps}
use pod_backend.Entity.GameEvent.{EventData, validate_event}
use pod_backend.GamePersistence.{
  Env, System, db, read, expects, undo, answer, rolled_back, committed, with_tx, current,
  unless_duplicate,
}
use pod_backend.GamePersistence.Handlers.{in_transaction}

module _ (P : System → Type 0) where
  pub expects-Keeps : (kind : Text) → Keeps P (expects kind)
  unfolding expects
  expects-Keeps kind = record {
    keep = λ s h. elim (Option-cases (validate_event s.event)) [
      | inl e ↦ ground arith
      | inr (m, e) ↦ ground arith
    ];
  }

  pub read-Keeps : {A : Type 0} (f : EventData → Outcome Fault A) → Keeps P (read f)
  unfolding read
  read-Keeps f = record {
    keep = λ s h. elim (Outcome-cases (f (elim s.event.event_data [ none ↦ [] | some d ↦ d ]))) [
      | inl (a, e) ↦ ground arith
      | inr (m, e) ↦ ground arith
    ];
  }

  pub current-Keeps : Keeps P current
  unfolding current
  current-Keeps = record { keep = λ s h. h }

  pub unless_duplicate-Keeps :
      (rest : Action System (Unit {0})) → Keeps P rest → Keeps P (unless_duplicate rest)
  unfolding unless_duplicate
  unless_duplicate-Keeps rest k = record { keep = λ s h. ground (arith, k.keep s h) }

  module _ (env : Env)
      (count : (s : System) (n : ℕ)
        → P s
        → P (record s { tables = record s.tables { statements = n } }))
      (back : (s s' : System) → P s → P s' → P (undo env s s')) where
    answered : (s : System) → P s → P (db (execute env.server (answer env)) s).1
    unfolding db execute answer
    answered s h = ground (arith, count s (suc s.tables.statements) h)

    rolled_back-Keeps :
        (s : System) (e : Fault) (s' : System) → P s → P s' → P (rolled_back env s e s').1
    unfolding rolled_back
    rolled_back-Keeps s e s' h h' =
        back s (db (execute env.server (answer env)) s').1 h (answered s' h')

    committed-Keeps : (s s' : System) → P s → P s' → P (committed env s s').1
    unfolding committed
    committed-Keeps s s' h h' = elim (Outcome-cases (db (execute env.server (answer env)) s').0) [
      | inl (a, e) ↦ rw (e, committed) (answered s' h')
      | inr (m, e) ↦
          rw (e, committed) (back s (db (execute env.server (answer env)) s').1 h (answered s' h'))
    ]

    pub with_tx-Keeps :
        (body : Action System (Unit {0})) → Keeps P body → Keeps P (with_tx env body)
    unfolding with_tx
    with_tx-Keeps body k = record {
      keep = λ s h.
          let s1 = (db (execute env.server (answer env)) s).1 in
          elim (Outcome-cases (db (execute env.server (answer env)) s).0) [
            | inl (a, e) ↦ elim (Outcome-cases (body s1).0) [
              | inl (b, f) ↦
                  rw (e, with_tx)
                    (rw f (committed-Keeps s (body s1).1 h (k.keep s1 (answered s h))))
              | inr (m, f) ↦
                  rw (e, with_tx)
                    (rw f (rolled_back-Keeps s m (body s1).1 h (k.keep s1 (answered s h))))
            ]
            | inr (m, e) ↦ rw (e, with_tx) (answered s h)
          ];
    }

    chosen :
        (b : Bool) (x y : Outcome Fault (Unit {0}) × System)
        → P x.1
        → P y.1
        → P (if b then x else y).1
    chosen true x y h k = h
    chosen false x y h k = k

    pub in_transaction-Keeps :
        (body : Action System (Unit {0})) → Keeps P body → Keeps P (in_transaction env body)
    unfolding in_transaction
    in_transaction-Keeps body k = record {
      keep = λ s h.
          chosen s.transactional (with_tx env body s) (body s) ((with_tx-Keeps body k).keep s h)
            (k.keep s h);
    }
