-- ===== src/Database/Triples.antt =====
-- What holds after a call of Database.antt that succeeded, and after one that returned an error.
use Prim.Native.String.{String}
use pod_backend.Common.{suc, Outcome, ok, err, ℕ, Bool-cases, inl, inr}
use pod_backend.Database.{Action, Tables, Server, Fault, ◌>>=◌, ◌>>◌, wrap, pure, execute}
use pod_backend.Database.Keeping.{Keeps}

abbrev pub Ends : {S A : Type 0} → (A → S → Type 0) → (S → Type 0) → Outcome Fault A × S → Type 0
Ends Q E (ok a, s) = Q a s
Ends Q E (err _, s) = E s

pub record Triple {S A : Type 0} (P : S → Type 0) (Q : A → S → Type 0) (E : S → Type 0)
    (m : Action S A) : Type 0 where
  pub run : (s : S) → P s → Ends Q E (m s)

module _ {S : Type 0} (P : S → Type 0) (E : S → Type 0) where
  ends-bind :
      {A B : Type 0} (Q : A → S → Type 0) (R : B → S → Type 0) (f : A → Action S B)
      → ((a : A) → Triple (Q a) R E (f a))
      → (r : Outcome Fault A × S) → Ends Q E r
      → Ends R E (((λ _. r) >>= f) r.1)
  unfolding ◌>>=◌
  ends-bind Q R f k (ok a, s) h = (k a).run s h
  ends-bind Q R f k (err e, s) h = h

  pub bind-Triple :
      {A B : Type 0} (Q : A → S → Type 0) (R : B → S → Type 0) (m : Action S A) (f : A → Action S B)
      → Triple P Q E m
      → ((a : A) → Triple (Q a) R E (f a))
      → Triple P R E (m >>= f)
  unfolding ◌>>=◌
  bind-Triple Q R m f t k = record { run = λ s h. ends-bind Q R f k (m s) (t.run s h) }

  pub then-Triple :
      {B : Type 0} (Q : S → Type 0) (R : B → S → Type 0) (m : Action S (Unit {0})) (k : Action S B)
      → Triple P (λ _. Q) E m
      → Triple Q R E k
      → Triple P R E (m >> k)
  unfolding ◌>>◌
  then-Triple Q R m k t u = bind-Triple (λ _. Q) R m (λ _. k) t (λ _. u)

  ends-wrap :
      {A : Type 0} (Q : A → S → Type 0) (context : String) (r : Outcome Fault A × S)
      → Ends Q E r
      → Ends Q E (wrap context (λ _. r) r.1)
  unfolding wrap
  ends-wrap Q context (ok a, s) h = h
  ends-wrap Q context (err e, s) h = h

  pub wrap-Triple :
      {A : Type 0} (Q : A → S → Type 0) (context : String) (m : Action S A)
      → Triple P Q E m
      → Triple P Q E (wrap context m)
  unfolding wrap
  wrap-Triple Q context m t = record { run = λ s h. ends-wrap Q context (m s) (t.run s h) }

  ends-keep :
      {A : Type 0} → ((s : S) → P s → E s) → (r : Outcome Fault A × S) → P r.1 → Ends (λ _. P) E r
  ends-keep w (ok a, s) h = h
  ends-keep w (err e, s) h = w s h

  -- A kept property that is enough for the end by an error.
  pub keep-Triple :
      {A : Type 0} (m : Action S A) → ((s : S) → P s → E s) → Keeps P m → Triple P (λ _. P) E m
  keep-Triple m w k = record { run = λ s h. ends-keep w (m s) (k.keep s h) }

module _ {S A : Type 0} where
  -- A value that is returned as it stands.
  pub pure-Triple : (Q : A → S → Type 0) (E : S → Type 0) (a : A) → Triple (Q a) Q E (pure a)
  unfolding pure
  pure-Triple Q E a = record { run = λ s h. h }

-- A statement: it fails before it has an effect, or ends as its effect does.
pub execute-Triple :
    {A : Type 0} (P : Tables → Type 0) (Q : A → Tables → Type 0) (E : Tables → Type 0)
    (server : Server) (run : ℕ → Action Tables A)
    → ((t : Tables) (n : ℕ) → P t → P (record t { statements = n }))
    → ((t : Tables) → P t → E t)
    → ((now : ℕ) → Triple P Q E (run now))
    → Triple P Q E (execute server run)
unfolding execute
execute-Triple P Q E server run count weaken k = record {
  run = λ t h. elim (Bool-cases (server.fails t.statements)) [
    | inl e ↦
        rw e (weaken (record t { statements = suc t.statements }) (count t (suc t.statements) h))
    | inr e ↦ rw e (
        (k (server.clock t.statements)).run (record t { statements = suc t.statements })
          (count t (suc t.statements) h))
  ];
}
