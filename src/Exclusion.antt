-- ===== src/Exclusion.antt =====
-- internal/usecase/reservation.go and cancel_reservation.go together, wired to one another as
-- internal/app/app.go does: a waiting game is held for a join or for a cancellation, not for both.
pub mod Sequential
pub mod Race
use pod_backend.Common.{ℕ, ◌≡◌, ◌⊎◌, Option, none, some, ℤ, true}
use pod_backend.CancelReservation.Safety
use pod_backend.Entity.Repository.{GetById}
use pod_backend.Ledger.{World, Ledger, get_active}
use pod_backend.Reservation.History
use pod_backend.Wallet.{AddressLib}

pub record Pair : Type 0 where
  pub join : Ledger
  pub stop : Ledger

-- A call of one of the two, in the world of that moment.
pub data Turn : Type 0 where
  on_join : History.Call → Turn
  on_stop : Safety.Call → Turn

-- What both find: the clock and the games.
pub record Moment : Type 0 where
  pub now : ℕ
  pub get_by_id : GetById

abbrev pub world : Moment → Ledger → World
world m peer = record { now = m.now; get_by_id = m.get_by_id; repo_set = true; peer = some peer }

-- One call at a time, from its checks to its end.
unfoldable pub turn : AddressLib → Moment → Pair → Turn → Pair
turn lib m p (on_join c) = record p { join = History.step lib (world m p.stop) p.join c }
turn lib m p (on_stop c) = record p { stop = Safety.step lib (world m p.join) p.stop c }

-- No game has an active reservation of both kinds.
abbrev pub Exclusive : ℕ → Pair → Type 0
Exclusive now p = (g : ℤ) → (get_active now p.join g ≡ none) ⊎ (get_active now p.stop g ≡ none)
