-- ===== src/Database.antt =====
-- The three tables of the migrations 000001 to 000012 that internal/usecase/game_persistence.go writes,
-- the server that runs the statements on them, and pkg/postgres/tx.go.
-- A `game` row keeps the key, a `user` row its wallet; events are in the order of their insertion.
pub mod Games
pub mod Players
pub mod Events
pub mod Users
pub mod Statistics
pub mod Keeping
pub mod Giving
pub mod Triples
pub mod Tallies
pub mod Consistency
pub mod Counters
pub mod Statements
use Prim.Native.String.{String}
use pod_backend.Common.{
  ℕ, suc, Bool, not, ◌&&◌, Option, none, some, List, Text, ℤ, length, leb, leb_ℤ, pos, negsuc, ◌==◌,
  [], ◌∷◌, if◌then◌else◌, true, false, Outcome, ok, err, ◌^◌, ◌-◌, text_eq,
}
use pod_backend.Common.Dict.{Dict, lookup}
use pod_backend.Entity.Game.{Game}
use pod_backend.Entity.GameEvent.{GameEvent}
use pod_backend.Entity.User.{User}

-- A row of `users`: `named` says that `telegram_username` is not null; a null one is empty here.
pub record UserRow : Type 0 where
  pub columns : User
  pub named : Bool

-- `statements` counts what the server was asked to do. The ids come from two sequences.
pub record Tables : Type 0 where
  pub games : Dict ℤ Game
  pub events : List GameEvent
  pub users : Dict Text UserRow
  pub next_event_id : ℕ
  pub next_user_id : ℕ
  pub statements : ℕ

-- What the environment decides: whether the statement of that number fails without an effect, and
-- the time that `NOW()` is for it.
pub record Server : Type 0 where
  pub fails : ℕ → Bool
  pub clock : ℕ → ℕ

-- An error by the constant part of its messages, the outermost first.
pub data Fault : Type 0 where
  message : String → Fault
  wrapped : String → Fault → Fault

-- A call that returns an error keeps what it has written so far.
abbrev pub Action : Type 0 → Type 0 → Type 0
Action S A = S → Outcome Fault A × S

module _ {S A : Type 0} where
  unfoldable pub pure : A → Action S A
  pure a s = (ok a, s)

  unfoldable pub throw : Fault → Action S A
  throw e s = (err e, s)

  -- `fmt.Errorf("…: %w", err)`
  unfoldable pub wrap : String → Action S A → Action S A
  wrap context m s =
      let (r, s') = m s in (elim r [ ok a ↦ ok a | err e ↦ err (wrapped context e) ], s')

infixl 5 ◌>>=◌ ◌>>◌
unfoldable pub ◌>>=◌ : {S A B : Type 0} → Action S A → (A → Action S B) → Action S B
◌>>=◌ m f s = let (r, s') = m s in elim r [ ok a ↦ f a s' | err e ↦ (err e, s') ]

unfoldable pub ◌>>◌ : {S B : Type 0} → Action S (Unit {0}) → Action S B → Action S B
unfolding ◌>>=◌
m >> k = m >>= λ _. k

-- A validation that returned a message ends the call.
unfoldable pub check : {S : Type 0} → String → Option String → Action S (Unit {0})
check context none s = (ok tt, s)
check context (some m) s = (err (wrapped context (message m)), s)

module _ (server : Server) where
  -- One statement: it fails, or does what `run` says at its time.
  unfoldable pub execute : {A : Type 0} → (ℕ → Action Tables A) → Action Tables A
  execute run t =
      let t' = record t { statements = suc t.statements } in
      if server.fails t.statements
      then (err (message "connection failure"), t')
      else run (server.clock t.statements) t'

-- PostgreSQL refuses the rune 0 in a text.
unfoldable pub is_text : Text → Bool
is_text [] = true
is_text (c ∷ s) = not (c == 0) && is_text s

-- `VARCHAR(n)`
unfoldable pub is_varchar : ℕ → Text → Bool
is_varchar n s = leb (length s) n && is_text s

-- A nullable `VARCHAR(n)`.
unfoldable pub is_varchar? : ℕ → Option Text → Bool
is_varchar? n none = true
is_varchar? n (some s) = is_varchar n s

-- `INTEGER` and `BIGINT`.
unfoldable pub is_integer : ℤ → Bool
is_integer z = leb_ℤ (negsuc (2 ^ 31 - 1)) z && leb_ℤ z (pos (2 ^ 31 - 1))

unfoldable pub is_bigint : ℤ → Bool
is_bigint z = leb_ℤ (negsuc (2 ^ 63 - 1)) z && leb_ℤ z (pos (2 ^ 63 - 1))

-- `users(wallet_address)` as the target of a foreign key that may be null.
unfoldable pub is_user : Dict Text UserRow → Text → Bool
is_user users w = elim (lookup w users) [ none ↦ false | some _ ↦ true ]

unfoldable pub is_user? : Dict Text UserRow → Option Text → Bool
unfolding is_user
is_user? users none = true
is_user? users (some w) = is_user users w
