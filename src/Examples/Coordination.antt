-- ===== src/Examples/Coordination.antt =====
-- The four kinds of reservations at concrete inputs, alone and together.
use pod_backend.Common.{
  ◌≡◌, ◌≤◌, ◌<◌, refl, true, none, some, ok, [], ◌∷◌, List, ℤ, pos, ℕ, Text, int_eq, arith,
}
use pod_backend.Common.Dict.{lookup}
use pod_backend.CancelReservation
use pod_backend.CancelReservation.Safety
use pod_backend.Exclusion.{Pair, Moment, Exclusive, on_join, on_stop, turn}
use pod_backend.Exclusion.Sequential.{Plays, begins, turns, fresh_pair, Plays-Exclusive}
use pod_backend.ExpiredClaim
use pod_backend.ExpiredClaim.Safety as ClaimSafety
use pod_backend.Ledger.{World, Ledger, active_count, new_reservation}
use pod_backend.Ledger.Limit.{Safe, held}
use pod_backend.Reservation
use pod_backend.Reservation.History
use pod_backend.Reservation.StaleIndex.{reserve_overcounts}
use pod_backend.RevealReservation
use pod_backend.RevealReservation.Batch.{AllOrNothing, reserve_batch-AllOrNothing}
use pod_backend.RevealReservation.Safety as RevealSafety
use pod_backend.Wallet.{normalize_reservation_wallet}
use pod_backend.Examples.Fixtures.{
  plain, alice, bob, carol, game_of, waiting_games, at, one_each, joining, bob_holds,
}
use pod_backend.Examples.Joining.{taken, taken-Safe}

-- Alice tries to cancel game 7 while Bob holds it.
abbrev moment : ℕ → Moment
moment now = record { now = now; get_by_id = waiting_games }

abbrev both : Pair
both = fresh_pair true one_each one_each

abbrev bob_first : Pair
bob_first = turn plain (moment 10) both (on_join (History.reserves (pos 7) bob))

abbrev then_alice : Pair
then_alice = turn plain (moment 20) bob_first (on_stop (Safety.reserves (pos 7) alice))

then_alice-Plays : Plays plain both 20 then_alice
then_alice-Plays =
    turns (moment 20) (on_stop (Safety.reserves (pos 7) alice))
      (turns (moment 10) (on_join (History.reserves (pos 7) bob)) (begins 10) (omega arith))
      (omega arith)

Plays-Exclusive_example :
    Exclusive 20 then_alice
    × ((key : Text) → held plain 20 then_alice.join key ≤ then_alice.join.max_per_wallet)
    × ((key : Text) → held plain 20 then_alice.stop key ≤ then_alice.stop.max_per_wallet)
Plays-Exclusive_example = Plays-Exclusive plain true one_each one_each then_alice-Plays

-- Carol takes game 7 after Bob's reservation has run out.
abbrev later : ℕ
later = 60000000011

carol_reserves :
    (Reservation.reserve plain (at later) taken (pos 7) carol).1
    ≡ ok (new_reservation plain later taken.timeout (pos 7) carol)
unfolding joining
carol_reserves = refl

bob_there : lookup (pos 7) taken.reservations ≡ some bob_holds
unfolding joining
bob_there = refl

reserve_overcounts_example :
    held plain later
      (Reservation.reserve plain (at later) taken (pos 7) carol).0
      (normalize_reservation_wallet plain bob)
    < active_count later
        (Reservation.reserve plain (at later) taken (pos 7) carol).0
        (normalize_reservation_wallet plain bob)
unfolding joining
reserve_overcounts_example =
    reserve_overcounts plain (at later) taken (pos 7) carol bob_holds
      (new_reservation plain later taken.timeout (pos 7) carol) taken-Safe.inv bob_there refl
      (λ e. cc) carol_reserves

-- Alice reveals two games at once.
abbrev revealing : World
revealing = record {
  now = 10;
  get_by_id = λ g. ok (some (game_of g (pos 2)));
  repo_set = true;
  peer = none;
}

abbrev two_games : List ℤ
two_games = pos 7 ∷ pos 8 ∷ []

abbrev no_reveals : Ledger
no_reveals =
    RevealReservation.new_reveal_reservation_use_case true
      (record one_each { config_max_per_wallet = pos 2 })

reserve_batch-AllOrNothing_example :
    AllOrNothing plain revealing no_reveals two_games alice
      (pos 8)
      (RevealReservation.reserve_batch plain revealing no_reveals two_games alice)
reserve_batch-AllOrNothing_example =
    reserve_batch-AllOrNothing plain revealing no_reveals two_games alice (pos 8)

reveals-Safe_example :
    Safe plain 10
      (RevealSafety.step plain revealing no_reveals (RevealSafety.reserves_all two_games alice))
reveals-Safe_example =
    RevealSafety.Reaches-Safe plain true (record one_each { config_max_per_wallet = pos 2 })
      (RevealSafety.calls revealing (RevealSafety.reserves_all two_games alice)
        (RevealSafety.begins 10) (omega arith))

-- Alice claims the follow-up of game 7, which has ended.
abbrev ended : World
ended = record revealing { get_by_id = λ g. ok (some (game_of g (pos 3))) }

abbrev no_claims : Ledger
no_claims = ExpiredClaim.new_expired_claim_use_case true one_each

claims_reached-Safe_example :
    Safe plain 10 (ClaimSafety.step plain ended no_claims (ClaimSafety.claims (pos 7) alice))
claims_reached-Safe_example = ClaimSafety.claims_reached-Safe plain true one_each (
    ClaimSafety.calls ended (ClaimSafety.claims (pos 7) alice) (ClaimSafety.begins 10)
      (omega arith))
