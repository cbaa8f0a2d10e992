-- ===== src/Database/Keeping.antt =====
-- A property of the state that a call of Database.antt keeps, whether it returns an error or not.
use Prim.Native.String.{String}
use pod_backend.Common.{suc, Option, none, some, Outcome, ok, err, Bool-cases, inl, inr, ℕ}
use pod_backend.Database.{
  pure, throw, ◌>>◌, Action, Tables, Server, Fault, ◌>>=◌, wrap, check, execute,
}

pub record Keeps {S A : Type 0} (P : S → Type 0) (m : Action S A) : Type 0 where
  pub keep : (s : S) → P s → P (m s).1

continue_lem :
    {S A B : Type 0} (P : S → Type 0) (f : A → Action S B)
    → ((a : A) → Keeps P (f a))
    → (r : Outcome Fault A × S) → P r.1
    → P (((λ _. r) >>= f) r.1).1
unfolding ◌>>=◌
continue_lem P f kf (ok a, s) h = (kf a).keep s h
continue_lem P f kf (err e, s) h = h

module _ {S : Type 0} (P : S → Type 0) where
  pub bind-Keeps :
      {A B : Type 0} (m : Action S A) (f : A → Action S B)
      → Keeps P m
      → ((a : A) → Keeps P (f a))
      → Keeps P (m >>= f)
  unfolding ◌>>=◌
  bind-Keeps m f km kf = record { keep = λ s h. continue_lem P f kf (m s) (km.keep s h) }

  pub then-Keeps :
      {B : Type 0} (m : Action S (Unit {0})) (k : Action S B)
      → Keeps P m
      → Keeps P k
      → Keeps P (m >> k)
  unfolding ◌>>◌
  then-Keeps m k km kk = bind-Keeps m (λ _. k) km (λ _. kk)

  pub wrap-Keeps :
      {A : Type 0} (context : String) (m : Action S A) → Keeps P m → Keeps P (wrap context m)
  unfolding wrap
  wrap-Keeps context m km = record { keep = λ s h. km.keep s h }

  pub check-Keeps : (context : String) (o : Option String) → Keeps P (check context o)
  unfolding check
  check-Keeps context none = record { keep = λ s h. h }
  check-Keeps context (some m) = record { keep = λ s h. h }

  pub pure-Keeps : {A : Type 0} (a : A) → Keeps P (pure a)
  unfolding pure
  pure-Keeps a = record { keep = λ s h. h }

  pub throw-Keeps : {A : Type 0} (e : Fault) → Keeps P (throw {A = A} e)
  unfolding throw
  throw-Keeps e = record { keep = λ s h. h }

-- A statement keeps what its effect keeps, for a property that the count of statements leaves alone.
pub execute-Keeps :
    {A : Type 0} (P : Tables → Type 0) (server : Server) (run : ℕ → Action Tables A)
    → ((t : Tables) (n : ℕ) → P t → P (record t { statements = n }))
    → ((now : ℕ) → Keeps P (run now))
    → Keeps P (execute server run)
unfolding execute
execute-Keeps P server run count kr = record {
  keep = λ t h. elim (Bool-cases (server.fails t.statements)) [
    | inl e ↦ rw e (count t (suc t.statements) h)
    | inr e ↦ rw e (
        (kr (server.clock t.statements)).keep (record t { statements = suc t.statements })
          (count t (suc t.statements) h))
  ];
}

-- From one property to another: by every end of the call, or by its success alone.
pub record Takes {S A : Type 0} (P Q : S → Type 0) (m : Action S A) : Type 0 where
  pub take : (s : S) → P s → Q (m s).1

abbrev pub After : {S A : Type 0} → (S → Type 0) → (S → Type 0) → Outcome Fault A × S → Type 0
After P Q (ok _, s) = Q s
After P Q (err _, s) = P s

pub record Leads {S A : Type 0} (P Q : S → Type 0) (m : Action S A) : Type 0 where
  pub lead : (s : S) → P s → After P Q (m s)

module _ {S : Type 0} (P Q : S → Type 0) where
  led :
      {B : Type 0} (k : Action S B)
      → Takes Q P k
      → (r : Outcome Fault (Unit {0}) × S) → After P Q r
      → P (((λ _. r) >>= λ _. k) r.1).1
  unfolding ◌>>=◌
  led k tk (ok a, s) h = tk.take s h
  led k tk (err e, s) h = h

  -- A step that goes on with more than it began with, and one that may spend it.
  pub lead-Keeps :
      {B : Type 0} (m : Action S (Unit {0})) (k : Action S B)
      → Leads P Q m
      → Takes Q P k
      → Keeps P (m >> k)
  unfolding ◌>>◌ ◌>>=◌
  lead-Keeps m k lm tk = record { keep = λ s h. led k tk (m s) (lm.lead s h) }

  taken :
      {B : Type 0} (k : Action S B)
      → Keeps P k
      → (r : Outcome Fault (Unit {0}) × S) → P r.1
      → P (((λ _. r) >>= λ _. k) r.1).1
  unfolding ◌>>=◌
  taken k kk (ok a, s) h = kk.keep s h
  taken k kk (err e, s) h = h

  pub take-Keeps :
      {B : Type 0} (m : Action S (Unit {0})) (k : Action S B)
      → Takes Q P m
      → Keeps P k
      → Takes Q P (m >> k)
  unfolding ◌>>◌ ◌>>=◌
  take-Keeps m k tm kk = record { take = λ s h. taken k kk (m s) (tm.take s h) }

  After_weaken :
      {A : Type 0} (w : (s : S) → Q s → P s) (r : Outcome Fault A × S) → After P Q r → P r.1
  After_weaken w (ok a, s) h = w s h
  After_weaken w (err e, s) h = h

  pub leads-Keeps : {A : Type 0} (m : Action S A) → ((s : S) → Q s → P s) → Leads P Q m → Keeps P m
  leads-Keeps m w lm = record { keep = λ s h. After_weaken w (m s) (lm.lead s h) }

  After-wrap :
      {A : Type 0} (context : String) (r : Outcome Fault A × S)
      → After P Q r
      → After P Q (wrap context (λ _. r) r.1)
  unfolding wrap
  After-wrap context (ok a, s) h = h
  After-wrap context (err e, s) h = h

  pub wrap-Leads :
      {A : Type 0} (context : String) (m : Action S A) → Leads P Q m → Leads P Q (wrap context m)
  unfolding wrap
  wrap-Leads context m lm = record { lead = λ s h. After-wrap context (m s) (lm.lead s h) }

  pub wrap-Takes :
      {A : Type 0} (context : String) (m : Action S A) → Takes P Q m → Takes P Q (wrap context m)
  unfolding wrap
  wrap-Takes context m tm = record { take = λ s h. tm.take s h }

  After-bind :
      {A B : Type 0} (b : B) (r : Outcome Fault A × S)
      → After P Q r
      → After P Q (((λ _. r) >>= λ _. pure b) r.1)
  unfolding ◌>>=◌ pure
  After-bind b (ok a, s) h = h
  After-bind b (err e, s) h = h

  -- A call whose result is dropped.
  pub drop-Leads :
      {A B : Type 0} (m : Action S A) (b : B) → Leads P Q m → Leads P Q (m >>= λ _. pure b)
  unfolding ◌>>=◌ pure
  drop-Leads m b lm = record { lead = λ s h. After-bind b (m s) (lm.lead s h) }

  take-bind :
      {A B : Type 0} (b : B) (r : Outcome Fault A × S)
      → Q r.1
      → Q (((λ _. r) >>= λ _. pure b) r.1).1
  unfolding ◌>>=◌ pure
  take-bind b (ok a, s) h = h
  take-bind b (err e, s) h = h

  pub drop-Takes :
      {A B : Type 0} (m : Action S A) (b : B) → Takes P Q m → Takes P Q (m >>= λ _. pure b)
  unfolding ◌>>=◌ pure
  drop-Takes m b tm = record { take = λ s h. take-bind b (m s) (tm.take s h) }

module _ (P Q : Tables → Type 0) (server : Server)
    (count : (t : Tables) (n : ℕ) → P t → P (record t { statements = n })) where
  pub execute-Leads :
      {A : Type 0} (run : ℕ → Action Tables A)
      → ((now : ℕ) → Leads P Q (run now))
      → Leads P Q (execute server run)
  unfolding execute
  execute-Leads run lr = record {
    lead = λ t h. elim (Bool-cases (server.fails t.statements)) [
      | inl e ↦ rw e (count t (suc t.statements) h)
      | inr e ↦ rw e (
          (lr (server.clock t.statements)).lead (record t { statements = suc t.statements })
            (count t (suc t.statements) h))
    ];
  }

  pub execute-Takes :
      {A : Type 0} (run : ℕ → Action Tables A)
      → ((t : Tables) → P t → Q t)
      → ((now : ℕ) → Takes P Q (run now))
      → Takes P Q (execute server run)
  unfolding execute
  execute-Takes run weaker tr = record {
    take = λ t h. elim (Bool-cases (server.fails t.statements)) [
      | inl e ↦
          rw e (weaker (record t { statements = suc t.statements }) (count t (suc t.statements) h))
      | inr e ↦ rw e (
          (tr (server.clock t.statements)).take (record t { statements = suc t.statements })
            (count t (suc t.statements) h))
    ];
  }
