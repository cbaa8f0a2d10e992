-- ===== src/Database/Giving.antt =====
-- A property of every result that a call of Database.antt returns without an error.
use Prim.Native.String.{String}
use pod_backend.Common.{
  suc, ℕ, Bool, true, false, Outcome, ok, err, ◌≡◌, refl, subst, if◌then◌else◌, Bool-cases, inl,
  inr,
}
use pod_backend.Database.{pure, throw, Action, Tables, Server, Fault, ◌>>=◌, wrap, execute}

abbrev pub OnSuccess : {A : Type 0} → (A → Type 0) → Outcome Fault A → Type 0
OnSuccess P (ok a) = P a
OnSuccess P (err _) = Unit

pub record Gives {S A : Type 0} (P : A → Type 0) (m : Action S A) : Type 0 where
  pub give : (s : S) → OnSuccess P (m s).0

module _ {S : Type 0} where
  wrapped_lem :
      {A : Type 0} (P : A → Type 0) (context : String) (r : Outcome Fault A × S)
      → OnSuccess P r.0
      → OnSuccess P (wrap context (λ _. r) r.1).0
  unfolding wrap
  wrapped_lem P context (ok a, s) h = h
  wrapped_lem P context (err e, s) h = tt

  pub wrap-Gives :
      {A : Type 0} (P : A → Type 0) (context : String) (m : Action S A)
      → Gives P m
      → Gives P (wrap context m)
  unfolding wrap
  wrap-Gives P context m g = record { give = λ s. wrapped_lem P context (m s) (g.give s) }

  pub throw-Gives : {A : Type 0} (P : A → Type 0) (e : Fault) → Gives P (throw {S = S} {A = A} e)
  unfolding throw
  throw-Gives P e = record { give = λ s. tt }

  pub pure-Gives : {A : Type 0} (P : A → Type 0) (a : A) → P a → Gives P (pure {S = S} a)
  unfolding pure
  pure-Gives P a h = record { give = λ s. h }

  continued :
      {A B : Type 0} (P : A → Type 0) (Q : B → Type 0) (f : A → Action S B)
      → ((a : A) → P a → Gives Q (f a))
      → (r : Outcome Fault A × S) → OnSuccess P r.0
      → OnSuccess Q (((λ _. r) >>= f) r.1).0
  unfolding ◌>>=◌
  continued P Q f gf (ok a, s) h = (gf a h).give s
  continued P Q f gf (err e, s) h = tt

  pub bind-Gives :
      {A B : Type 0} (P : A → Type 0) (Q : B → Type 0) (m : Action S A) (f : A → Action S B)
      → Gives P m
      → ((a : A) → P a → Gives Q (f a))
      → Gives Q (m >>= f)
  unfolding ◌>>=◌
  bind-Gives P Q m f gm gf = record { give = λ s. continued P Q f gf (m s) (gm.give s) }

  pub if-Gives :
      {A : Type 0} (P : A → Type 0) (b : Bool) (m k : Action S A)
      → (b ≡ true → Gives P m)
      → (b ≡ false → Gives P k)
      → Gives P (if b then m else k)
  if-Gives P true m k gm gk = gm refl
  if-Gives P false m k gm gk = gk refl

  -- What the property says of a result.
  pub gives_lem :
      {A : Type 0} (P : A → Type 0) (m : Action S A) (s : S) (a : A)
      → Gives P m
      → (m s).0 ≡ ok a
      → P a
  gives_lem P m s a g h = subst (OnSuccess P) h (g.give s)

-- A statement gives what its effect gives.
pub execute-Gives :
    {A : Type 0} (P : A → Type 0) (server : Server) (run : ℕ → Action Tables A)
    → ((now : ℕ) → Gives P (run now))
    → Gives P (execute server run)
unfolding execute
execute-Gives P server run gr = record {
  give = λ t. elim (Bool-cases (server.fails t.statements)) [
    | inl e ↦ rw (e, OnSuccess) tt
    | inr e ↦
        rw (e, OnSuccess)
          ((gr (server.clock t.statements)).give (record t { statements = suc t.statements }))
  ];
}
