-- ===== src/Activity/Successes.antt =====
-- Requests succeed where the repository answers, and what they return.
use pod_backend.Common.{
  ℕ, sym, subst, ◌+◌, ◌≡◌, ◌∙◌, take, drop, refl, true, false, List, Text, ℤ, pos_part, is_empty,
  length, count_if, Outcome-cases, inl, inr, ok, arith,
}
use pod_backend.Activity.{Coordination, Limits, normalize_limit}
use pod_backend.Activity.Answers.{
  Sorts, Answers, build_queues-Sorts, fill_joinable_ok, fill_player_ok,
}
use pod_backend.Activity.Pages.{paginate-cut}
use pod_backend.Activity.Partition.{has_queue}
use pod_backend.Activity.Queues.{GameQueries, Queues, no_items, items_at, fill_joinable}
use pod_backend.Activity.Requests.{
  is_more_recent, sort_queues, paginate, player_statuses, build_player_activity_summary,
  populate_joinable_queue, populate_player_queues, build_queues, get_queue,
}
use pod_backend.Entity.Activity.{
  ActivityQueueKey, joinable, my_active, reveal_required, expired_attention, history, other_queue,
  PlayerActivityGame, GameplayQueue, PlayerActivitySummary,
}
use pod_backend.Entity.Game.{Game, status_waiting_for_opponent}
use pod_backend.Ledger.{World}
use pod_backend.Sorting.{sort_stable-IsSorted, IsSorted}
use pod_backend.Wallet.{AddressLib, normalize_reservation_wallet}

-- The count of the summary for a queue.
abbrev pub count_for : ActivityQueueKey → PlayerActivitySummary → ℕ
count_for joinable s = s.joinable_count
count_for my_active s = s.my_active_count
count_for reveal_required s = s.reveal_required_count
count_for expired_attention s = s.expired_attention_count
count_for history s = s.history_count
count_for (other_queue _) s = 0

is_more_recent-asym :
    (a b : PlayerActivityGame) → is_more_recent a b ≡ true → is_more_recent b a ≡ false
is_more_recent-asym a b h = ground arith

sort_queues-IsSorted :
    (key : ActivityQueueKey) (q : Queues) → IsSorted is_more_recent (items_at key (sort_queues q))
unfolding items_at
sort_queues-IsSorted joinable q =
    sort_stable-IsSorted is_more_recent is_more_recent-asym q.joinable_items
sort_queues-IsSorted my_active q =
    sort_stable-IsSorted is_more_recent is_more_recent-asym q.my_active_items
sort_queues-IsSorted reveal_required q =
    sort_stable-IsSorted is_more_recent is_more_recent-asym q.reveal_required_items
sort_queues-IsSorted expired_attention q =
    sort_stable-IsSorted is_more_recent is_more_recent-asym q.expired_attention_items
sort_queues-IsSorted history q =
    sort_stable-IsSorted is_more_recent is_more_recent-asym q.history_items
sort_queues-IsSorted (other_queue k) q = tt

count_for-items_at :
    (key : ActivityQueueKey) (wallet : Text) (q : Queues)
    → length (items_at key q) ≡ count_for key (build_player_activity_summary wallet q)
unfolding items_at build_player_activity_summary
count_for-items_at joinable wallet q = refl
count_for-items_at my_active wallet q = refl
count_for-items_at reveal_required wallet q = refl
count_for-items_at expired_attention wallet q = refl
count_for-items_at history wallet q = refl
count_for-items_at (other_queue k) wallet q = refl

-- What a page of `GetQueue` is, for the queues that `buildQueues` makes.
pub record IsPage (key : ActivityQueueKey) (limit offset : ℕ) (q : Queues) (page : GameplayQueue)
    (s : PlayerActivitySummary) : Type 0 where
  pub same_key : page.key ≡ key
  pub ordered : IsSorted is_more_recent (items_at key q)
  pub cut : page.items ≡ take limit (drop offset (items_at key q))
  pub total : page.total_count ≡ length (items_at key q)
  pub counted : page.total_count ≡ count_for key s

module _ (lib : AddressLib) (w : World) (repo : GameQueries) where
  build_queues-sorted :
      (c : Coordination) (wallet : Text) (s : PlayerActivitySummary) (q : Queues)
      → (build_queues lib w repo c wallet).1 ≡ ok (s, q)
      → (q' : Queues) × (q ≡ sort_queues q') × (s ≡ build_player_activity_summary wallet q)
  unfolding build_queues
  build_queues-sorted c wallet s q h =
      let key = normalize_reservation_wallet lib wallet in
      let (c', first, effects) = populate_joinable_queue lib w repo c key no_items in
      elim (Outcome-cases first) [
        | inr (e, x) ↦ absurd (ground arith)
        | inl (q', x) ↦
            elim (Outcome-cases (populate_player_queues lib w repo c' wallet key q').1) [
              | inr (e, y) ↦ absurd (ground arith)
              | inl (q'', y) ↦ (q'', ground arith, ground arith)
            ]
      ]

  -- A `GetQueue` that succeeds has built queues, with the summary that it returns, of which the one that
  -- was asked for is sorted, latest activity first. The page holds the items of that queue behind the
  -- offset, up to the limit in force, in their order; its total is the length of the whole queue, and the
  -- count of the summary for the queue.
  pub get_queue-IsPage :
      (c : Coordination) (limits : Limits) (key : ActivityQueueKey) (wallet : Text)
      (limit offset : ℤ) (page : GameplayQueue) (s : PlayerActivitySummary)
      → (get_queue lib w repo c limits key wallet limit offset).1 ≡ ok (page, s)
      → (q : Queues) × ((build_queues lib w repo c wallet).1 ≡ ok (s, q))
        × IsPage key (normalize_limit limits limit) (pos_part offset) q page s
  unfolding get_queue
  get_queue-IsPage c limits key wallet limit offset page s h =
      elim (Outcome-cases (build_queues lib w repo c wallet).1) [
        | inr (e, x) ↦ absurd (ground arith)
        | inl ((s', q), x) ↦
            let (q', e, t) = build_queues-sorted c wallet s' q x in
            let n = normalize_limit limits limit in
            let a : page.items ≡ paginate (items_at key q) n (pos_part offset) = ground arith in
            let b : page.total_count ≡ length (items_at key q) = ground arith in
            let d : s ≡ s' = ground arith in
            (
              q,
              rw d x,
              record {
                same_key = ground arith;
                ordered =
                    subst (λ r. IsSorted is_more_recent (items_at key r)) (sym e)
                      (sort_queues-IsSorted key q');
                cut = a ∙ paginate-cut (items_at key q) n (pos_part offset);
                total = b;
                counted = rw (b, d, t) (count_for-items_at key wallet q);
              },
            )
      ]

  -- For a wallet, where the repository answers its two queries and every lookup, `buildQueues`
  -- succeeds. The games of the joinable queue are those that wait and are not the wallet's. The games of
  -- the other queues are those of the player: my active ones wait for an opponent, or for a reveal that
  -- the player does not owe, and the ones that require a reveal for one that the player owes; ended ones
  -- need attention, paid ones are history. Each queue holds them as often as the repository returns them.
  -- The summary counts what the queues hold, which is in all as many games as have one of these statuses.
  pub build_queues_succeeds :
      (c : Coordination) (wallet : Text) (joins games : List Game)
      → Answers lib w repo
      → is_empty (normalize_reservation_wallet lib wallet) ≡ false
      → repo.get_by_status status_waiting_for_opponent ≡ ok joins
      → repo.get_by_player_and_statuses wallet player_statuses ≡ ok games
      → (s : PlayerActivitySummary) × (q : Queues) × ((build_queues lib w repo c wallet).1
          ≡ ok (s, q))
        × Sorts lib w repo wallet joins games q
        × (s ≡ build_player_activity_summary wallet q)
        × (s.my_active_count + s.reveal_required_count + s.expired_attention_count + s.history_count
            ≡ count_if has_queue games)
  unfolding build_queues populate_joinable_queue populate_player_queues
  build_queues_succeeds c wallet joins games a n j p =
      elim (Outcome-cases (build_queues lib w repo c wallet).1) [
        | inl ((s, q), x) ↦
            let r = build_queues-Sorts lib w repo c wallet joins games s q n j p x in
            (s, q, x, r.0, r.1, r.2)
        | inr (e, x) ↦
            let key = normalize_reservation_wallet lib wallet in
            let (q', u) = fill_joinable_ok lib w repo a c key joins no_items in
            let (q'', v) =
              fill_player_ok lib w repo a (fill_joinable lib w c key joins no_items).0 key games
                q' in
            absurd (ground arith)
      ]
