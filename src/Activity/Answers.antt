-- ===== src/Activity/Answers.antt =====
-- What a successful request returns.
use mathlib.Core.List.{Perm}
use pod_backend.Common.{
  subst, ap, ◌∙◌, keep_if, ◌+◌, ◌≡◌, refl, Bool, true, false, not, ◌&&◌, Option, List, [], ◌∷◌,
  ◌++◌, Text, ℤ, is_empty, count_if, All, Outcome-cases, Option-cases, inl, inr, Bool-cases, ok,
  arith, int_eq, text_eq,
}
use pod_backend.Activity.{Coordination, belongs_to_wallet, resolve_joinable_next_action}
use pod_backend.Activity.Places.{
  games_of, games_at, stands_in, placed_in, sort_queues-games_at, fill_player-games_at,
  fill_joinable-games_at, fill_joinable-same,
}
use pod_backend.Activity.Partition.{
  is_own_queue, joinable-classified, own_items, has_queue, fill_player-counts,
}
use pod_backend.Activity.Queues.{
  GameQueries, Queues, items_at, no_items, add_item, item_of, classify, load_claims, fill_joinable,
  add_classified, fill_player,
}
use pod_backend.Activity.Requests.{
  is_more_recent, sort_queues, player_statuses, build_player_activity_summary,
  populate_joinable_queue, populate_player_queues, build_queues,
}
use pod_backend.Entity.Activity.{
  ActivityQueueKey, joinable, my_active, reveal_required, expired_attention, history, other_queue,
  ActionClaim, PlayerActivityGame, PlayerActivitySummary,
}
use pod_backend.Entity.Game.{Game, status_waiting_for_opponent}
use pod_backend.ExpiredClaim.Lookups.{get_ok}
use pod_backend.Ledger.{World}
use pod_backend.Sorting.{sort_stable-All, length-sort_stable}
use pod_backend.Wallet.{AddressLib, normalize_reservation_wallet}

-- An item of a game of other wallets.
abbrev pub is_foreign : AddressLib → Text → PlayerActivityGame → Bool
is_foreign lib wallet i = not (belongs_to_wallet lib i.game wallet)

All-append :
    (p : PlayerActivityGame → Bool) (xs : List PlayerActivityGame) (i : PlayerActivityGame)
    → All p xs
    → p i ≡ true
    → All p (xs ++ i ∷ [])
All-append p [] i a h = (h, tt)
All-append p (x ∷ xs) i a h = (a.0, All-append p xs i a.1 h)

module _ (lib : AddressLib) (w : World) (wallet : Text) where
  -- The loop only adds games of other wallets to the joinable queue, and nothing elsewhere.
  fill_joinable-foreign :
      (c : Coordination) (games : List Game) (q q' : Queues)
      → is_empty wallet ≡ false
      → (fill_joinable lib w c wallet games q).1 ≡ ok q'
      → All (is_foreign lib wallet) q.joinable_items
      → All (is_foreign lib wallet) q'.joinable_items × (own_items q' ≡ own_items q)
  unfolding fill_joinable item_of add_item
  fill_joinable-foreign c [] q q' n h a = ground (arith, a)
  fill_joinable-foreign c (game ∷ games) q q' n h a =
      elim (Bool-cases (belongs_to_wallet lib game wallet)) [
        | inl b ↦ ground (arith, fill_joinable-foreign c games q q' n)
        | inr b ↦
            let (c', loaded, effects) = load_claims lib w c game.game_id in
            elim (Outcome-cases loaded) [
              | inr (e, p) ↦ absurd (ground arith)
              | inl (claims, p) ↦
                  let item =
                    item_of game claims false joinable
                      (resolve_joinable_next_action lib claims wallet) in
                  ground (
                    arith,
                    fill_joinable-foreign c' games (add_item joinable item q) q' n,
                    All-append (is_foreign lib wallet) q.joinable_items item a,
                  )
            ]
      ]

  -- The other loop leaves the joinable queue as it is.
  fill_player-joinable :
      (c : Coordination) (games : List Game) (q q' : Queues)
      → (fill_player lib w c wallet games q).1 ≡ ok q'
      → q'.joinable_items ≡ q.joinable_items
  unfolding fill_player
  fill_player-joinable c [] q q' h = ground arith
  fill_player-joinable c (game ∷ games) q q' h =
      let (c', loaded, effects) = load_claims lib w c game.game_id in
      elim (Outcome-cases loaded) [
        | inr (e, p) ↦ absurd (ground arith)
        | inl (claims, p) ↦
            let added = add_classified (classify lib game claims wallet) q in
            ground (
              arith,
              fill_player-joinable c' games added q',
              joinable-classified lib wallet game claims q,
            )
      ]

no_games : (key : ActivityQueueKey) → games_at key no_items ≡ []
unfolding items_at
no_games joinable = refl
no_games my_active = refl
no_games reveal_required = refl
no_games expired_attention = refl
no_games history = refl
no_games (other_queue k) = refl

own_items-sort_queues : (q : Queues) → own_items (sort_queues q) ≡ own_items q
own_items-sort_queues q = omega (
  arith,
  length-sort_stable is_more_recent q.my_active_items,
  length-sort_stable is_more_recent q.reveal_required_items,
  length-sort_stable is_more_recent q.expired_attention_items,
  length-sort_stable is_more_recent q.history_items,
)

module _ (lib : AddressLib) (w : World) (repo : GameQueries) where
  own_placed :
      (key : ActivityQueueKey) (c c' : Coordination) (wallet : Text) (joins games : List Game)
      (q q' : Queues)
      → is_own_queue key ≡ true
      → (fill_joinable lib w c wallet joins no_items).1 ≡ ok q
      → (fill_player lib w c' wallet games q).1 ≡ ok q'
      → games_at key q' ≡ keep_if (stands_in lib wallet key) games
  own_placed key c c' wallet joins games q q' o h k =
      let none_yet = fill_joinable-same lib wallet w key c joins no_items q o h ∙ no_games key in
      fill_player-games_at lib wallet w key c' games q q' k
      ∙ ap (λ l. l ++ keep_if (stands_in lib wallet key) games) none_yet

  -- What the queues of a wallet hold: each queue the games that stand in it, once for each time that the
  -- repository has them, and in all as many as have a queue; no own game can be joined.
  pub record Sorts (wallet : Text) (joins games : List Game) (q : Queues) : Type 0 where
    pub placed :
        (key : ActivityQueueKey)
        → Perm
            (games_at key q)
            (placed_in lib (normalize_reservation_wallet lib wallet) joins games key)
    pub others_only :
        All (is_foreign lib (normalize_reservation_wallet lib wallet)) q.joinable_items
    pub each_once : own_items q ≡ count_if has_queue games

  each_placed :
      (key : ActivityQueueKey) (c c' : Coordination) (wallet : Text) (joins games : List Game)
      (q q' : Queues)
      → is_empty wallet ≡ false
      → (fill_joinable lib w c wallet joins no_items).1 ≡ ok q
      → (fill_player lib w c' wallet games q).1 ≡ ok q'
      → games_at key q' ≡ placed_in lib wallet joins games key
  unfolding items_at
  each_placed joinable c c' wallet joins games q q' n h k =
      ap games_of (fill_player-joinable lib w wallet c' games q q' k)
      ∙ fill_joinable-games_at lib wallet w c joins no_items q n h
  each_placed (other_queue m) c c' wallet joins games q q' n h k =
      fill_player-games_at lib wallet w (other_queue m) c' games q q' k
  each_placed my_active c c' wallet joins games q q' n h k =
      own_placed my_active c c' wallet joins games q q' refl h k
  each_placed reveal_required c c' wallet joins games q q' n h k =
      own_placed reveal_required c c' wallet joins games q q' refl h k
  each_placed expired_attention c c' wallet joins games q q' n h k =
      own_placed expired_attention c c' wallet joins games q q' refl h k
  each_placed history c c' wallet joins games q q' n h k =
      own_placed history c c' wallet joins games q q' refl h k

  filled :
      (c c' : Coordination) (wallet : Text) (joins games : List Game) (q q' : Queues)
      → is_empty (normalize_reservation_wallet lib wallet) ≡ false
      → (fill_joinable lib w c (normalize_reservation_wallet lib wallet) joins no_items).1 ≡ ok q
      → (fill_player lib w c' (normalize_reservation_wallet lib wallet) games q).1 ≡ ok q'
      → Sorts wallet joins games (sort_queues q')
  filled c c' wallet joins games q q' n h k =
      let key = normalize_reservation_wallet lib wallet in
      let (a, b) = fill_joinable-foreign lib w key c joins no_items q n h tt in
      record {
        placed = λ j.
            subst (Perm (games_at j (sort_queues q')))
              (each_placed j c c' key joins games q q' n h k) (sort_queues-games_at j q');
        others_only =
            sort_stable-All is_more_recent (is_foreign lib key) q'.joinable_items
              (rw (fill_player-joinable lib w key c' games q q' k) a);
        each_once =
            omega
              (arith, b, own_items-sort_queues q', fill_player-counts lib key w c' games q q' k);
      }

  pub build_queues-Sorts :
      (c : Coordination) (wallet : Text) (joins games : List Game) (s : PlayerActivitySummary)
      (q : Queues)
      → is_empty (normalize_reservation_wallet lib wallet) ≡ false
      → repo.get_by_status status_waiting_for_opponent ≡ ok joins
      → repo.get_by_player_and_statuses wallet player_statuses ≡ ok games
      → (build_queues lib w repo c wallet).1 ≡ ok (s, q)
      → Sorts wallet joins games q
        × (s ≡ build_player_activity_summary wallet q)
        × (s.my_active_count + s.reveal_required_count + s.expired_attention_count + s.history_count
            ≡ count_if has_queue games)
  unfolding build_queues populate_joinable_queue populate_player_queues
      build_player_activity_summary
  build_queues-Sorts c wallet joins games s q n j p h =
      let key = normalize_reservation_wallet lib wallet in
      let (c', first, effects) = fill_joinable lib w c key joins no_items in
      elim (Outcome-cases first) [
        | inr (e, x) ↦ absurd (ground arith)
        | inl (q', x) ↦
            let second = (fill_player lib w c' key games q').1 in
            elim (Outcome-cases second) [
              | inr (e, y) ↦ absurd (ground arith)
              | inl (q'', y) ↦
                  let f = filled c c' wallet joins games q' q'' n x y in
                  let same : sort_queues q'' ≡ q = ground arith in
                  let t : s ≡ build_player_activity_summary wallet q = ground arith in
                  let f' = subst (Sorts wallet joins games) same f in (f', t, rw t f'.each_once)
            ]
      ]

  -- No lookup of a game fails.
  abbrev pub Answers : Type 0
  Answers = (g : ℤ) → (o : Option Game) × (w.get_by_id g ≡ ok o)

  load_claims_ok :
      Answers
      → (c : Coordination) (g : ℤ) → (l : List ActionClaim) × ((load_claims lib w c g).1 ≡ ok l)
  unfolding load_claims
  load_claims_ok a c g = elim (Outcome-cases (load_claims lib w c g).1) [
    | inl found ↦ found
    | inr (e, p) ↦ elim (Option-cases c.claims) [
      | inl n ↦ absurd (ground arith)
      | inr (st, n) ↦
          let (o, h) = a g in let (r, k) = get_ok lib w st g o h in absurd (ground arith)
    ]
  ]

  pub fill_joinable_ok :
      Answers
      → (c : Coordination) (wallet : Text) (games : List Game) (q : Queues)
      → (q' : Queues) × ((fill_joinable lib w c wallet games q).1 ≡ ok q')
  unfolding fill_joinable
  fill_joinable_ok a c wallet [] q = (q, refl)
  fill_joinable_ok a c wallet (game ∷ games) q =
      elim (Bool-cases (not (is_empty wallet) && belongs_to_wallet lib game wallet)) [
        | inl b ↦ rw (b, fill_joinable) (fill_joinable_ok a c wallet games q)
        | inr b ↦
            let (l, p) = load_claims_ok a c game.game_id in
            rw (b, p, fill_joinable)
              (fill_joinable_ok a (load_claims lib w c game.game_id).0 wallet games _)
      ]

  pub fill_player_ok :
      Answers
      → (c : Coordination) (wallet : Text) (games : List Game) (q : Queues)
      → (q' : Queues) × ((fill_player lib w c wallet games q).1 ≡ ok q')
  unfolding fill_player
  fill_player_ok a c wallet [] q = (q, refl)
  fill_player_ok a c wallet (game ∷ games) q =
      let (l, p) = load_claims_ok a c game.game_id in
      rw (p, fill_player) (fill_player_ok a (load_claims lib w c game.game_id).0 wallet games _)
