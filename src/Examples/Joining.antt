-- ===== src/Examples/Joining.antt =====
-- The join use case at concrete inputs.
use pod_backend.Common.{◌≡◌, refl, true, ◌↔◌, some, [], ◌∷◌, List, pos, ok, err, int_eq, arith}
use pod_backend.Common.Dict.{lookup}
use pod_backend.Entity.Errors.{game_already_reserved}
use pod_backend.Entity.Reservation.{GameReservation}
use pod_backend.Ledger.{World, Ledger, get_active}
use pod_backend.Ledger.Limit.{Safe}
use pod_backend.Reservation.{reserve, cleanup_expired}
use pod_backend.Reservation.Cleanup.{lookup-cleanup_expired}
use pod_backend.Reservation.History.{
  Call, reserves, cancels_by, lists, cleans, run, step, run_new-Safe,
}
use pod_backend.Reservation.Outcomes.{
  MayReserve, CancelCases, reserve_ok_iff, reserve-get_active, reserve-err_unchanged, cancel_cases,
}
use pod_backend.Reservation.Tenure.{run_keeps}
use pod_backend.Examples.Fixtures.{plain, bob, carol, at, one_each, fresh, joining, bob_holds}

-- Bob takes game 7, Carol tries it, the loop cleans up.
abbrev calls : List (World × Call)
calls =
    (at 20, reserves (pos 7) carol)
    ∷ (at 30, lists bob)
    ∷ (at 40, cancels_by (pos 7) carol)
    ∷ (at 50, cleans)
    ∷ []

abbrev pub taken : Ledger
taken = (reserve plain (at 10) fresh (pos 7) bob).0

bob_reserves : (reserve plain (at 10) fresh (pos 7) bob).1 ≡ ok bob_holds
unfolding joining
bob_reserves = refl

carol_waits : (reserve plain (at 20) taken (pos 7) carol).1 ≡ err game_already_reserved
unfolding joining
carol_waits = refl

run_new-Safe_example : Safe plain 50 (run plain fresh calls)
run_new-Safe_example = run_new-Safe plain true one_each 10 calls (omega arith)

pub taken-Safe : Safe plain 10 taken
unfolding run step
taken-Safe = run_new-Safe plain true one_each 10 ((at 10, reserves (pos 7) bob) ∷ []) (omega arith)

lookup-cleanup_expired_example :
    lookup (pos 7) (cleanup_expired plain 20 taken).0.reservations ≡ some bob_holds
unfolding joining
lookup-cleanup_expired_example = lookup-cleanup_expired plain 20 taken (pos 7) taken-Safe.inv

reserve_ok_iff_example :
    ((r : GameReservation) × ((reserve plain (at 10) fresh (pos 7) bob).1 ≡ ok r))
    ↔ MayReserve plain (at 10) fresh (pos 7) bob
reserve_ok_iff_example = reserve_ok_iff plain (at 10) fresh (pos 7) bob

reserve-get_active_example :
    (bob_holds.game_id ≡ pos 7)
    × (bob_holds.wallet_address ≡ bob)
    × (bob_holds.created_at ≡ 10)
    × (get_active 20 taken (pos 7) ≡ some bob_holds)
unfolding joining
reserve-get_active_example =
    reserve-get_active plain (at 10) fresh (pos 7) (pos 7) bob bob_holds 20 bob_reserves

reserve-err_unchanged_example : (reserve plain (at 20) taken (pos 7) carol).0 ≡ taken
reserve-err_unchanged_example =
    (reserve-err_unchanged plain (at 20) taken (pos 7) carol game_already_reserved carol_waits).0

run_keeps_example : get_active 50 (run plain taken calls) (pos 7) ≡ some bob_holds
unfolding joining
run_keeps_example =
    run_keeps plain (pos 7) bob_holds 10 taken calls taken-Safe (omega arith) (omega arith)
      (λ x. x, (λ e. cc, (λ e. ground arith, (λ x. x, tt)))) refl

cancel_cases_example : CancelCases plain (at 20) taken (pos 7) (pos 7) bob
cancel_cases_example = cancel_cases plain (at 20) taken (pos 7) (pos 7) bob
