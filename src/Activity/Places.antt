-- ===== src/Activity/Places.antt =====
-- Which games stand in which queue of internal/usecase/game_activity.go.
use mathlib.Core.List.Perm
use mathlib.Core.List.{Perm, append_assoc}
use pod_backend.Common.{
  ◌≡◌, refl, sym, ◌∙◌, ap, Bool, true, false, not, ◌&&◌, ◌||◌, List, [], ◌∷◌, ◌++◌, map, Text,
  eqb_ℤ, is_empty, keep_if, Outcome-cases, Bool-cases, inl, inr, ok, if◌then◌else◌, arith, int_eq,
  text_eq,
}
use pod_backend.Activity.{
  Coordination, belongs_to_wallet, player_needs_reveal, resolve_joinable_next_action,
  resolve_reveal_next_action, resolve_expired_follow_up_next_action,
  resolve_waiting_lobby_next_action,
}
use pod_backend.Activity.Partition.{is_own_queue}
use pod_backend.Activity.Queues.{
  Queues, items_at, add_item, item_of, classify, load_claims, fill_joinable, add_classified,
  fill_player,
}
use pod_backend.Activity.Requests.{is_more_recent, sort_queues}
use pod_backend.Entity.Activity.{
  ActivityQueueKey, joinable, my_active, reveal_required, expired_attention, history, other_queue,
  wait_for_reveal, browse_history, ActionClaim, PlayerActivityGame,
}
use pod_backend.Entity.Game.{
  Game, status_waiting_for_opponent, status_waiting_for_open_bids, status_ended, status_paid,
}
use pod_backend.Ledger.{World}
use pod_backend.Sorting.{sort_stable-map_perm}
use pod_backend.Wallet.{AddressLib}

abbrev pub games_of : List PlayerActivityGame → List Game
games_of items = map (λ i. i.game) items

abbrev pub games_at : ActivityQueueKey → Queues → List Game
games_at key q = games_of (items_at key q)

games_of-append :
    (xs : List PlayerActivityGame) (i : PlayerActivityGame)
    → games_of (xs ++ i ∷ []) ≡ games_of xs ++ i.game ∷ []
games_of-append [] i = refl
games_of-append (x ∷ xs) i = ap (λ l. x.game ∷ l) (games_of-append xs i)

-- Sorting moves no game to another queue.
pub sort_queues-games_at :
    (key : ActivityQueueKey) (q : Queues) → Perm (games_at key (sort_queues q)) (games_at key q)
unfolding items_at
sort_queues-games_at joinable q = sort_stable-map_perm is_more_recent (λ i. i.game) _
sort_queues-games_at my_active q = sort_stable-map_perm is_more_recent (λ i. i.game) _
sort_queues-games_at reveal_required q = sort_stable-map_perm is_more_recent (λ i. i.game) _
sort_queues-games_at expired_attention q = sort_stable-map_perm is_more_recent (λ i. i.game) _
sort_queues-games_at history q = sort_stable-map_perm is_more_recent (λ i. i.game) _
sort_queues-games_at (other_queue k) q = Perm.refl _

append_nil : (xs : List Game) → xs ++ [] ≡ xs
append_nil [] = refl
append_nil (x ∷ xs) = ap (λ l. x ∷ l) (append_nil xs)

add_joinable-same :
    (key : ActivityQueueKey) (i : PlayerActivityGame) (q : Queues)
    → is_own_queue key ≡ true
    → games_at key (add_item joinable i q) ≡ games_at key q
unfolding items_at add_item
add_joinable-same joinable i q k = cc
add_joinable-same my_active i q k = refl
add_joinable-same reveal_required i q k = refl
add_joinable-same expired_attention i q k = refl
add_joinable-same history i q k = refl
add_joinable-same (other_queue n) i q k = cc

module _ (lib : AddressLib) (wallet : Text) where
  -- Whether a game of a player stands in a queue.
  abbrev pub stands_in : ActivityQueueKey → Game → Bool
  stands_in my_active g =
      eqb_ℤ g.status status_waiting_for_opponent
      || (eqb_ℤ g.status status_waiting_for_open_bids && not (player_needs_reveal lib g wallet))
  stands_in reveal_required g =
      eqb_ℤ g.status status_waiting_for_open_bids && player_needs_reveal lib g wallet
  stands_in expired_attention g = eqb_ℤ g.status status_ended
  stands_in history g = eqb_ℤ g.status status_paid
  stands_in _ g = false

  abbrev pub is_joinable : Game → Bool
  is_joinable g = not (belongs_to_wallet lib g wallet)

  -- The games of each queue, from those that can be joined and those of the player.
  abbrev pub placed_in : List Game → List Game → ActivityQueueKey → List Game
  placed_in joins games joinable = keep_if is_joinable joins
  placed_in joins games key = keep_if (stands_in key) games

  add_classified-games_at :
      (key : ActivityQueueKey) (game : Game) (claims : List ActionClaim) (q : Queues)
      → games_at key (add_classified (classify lib game claims wallet) q)
        ≡ (if stands_in key game then games_at key q ++ game ∷ [] else games_at key q)
  unfolding add_classified classify item_of items_at add_item
  add_classified-games_at joinable game claims q = ground arith
  add_classified-games_at my_active game claims q =
      let item = item_of game claims true my_active in
      ground (
        arith,
        games_of-append q.my_active_items
            (item (resolve_waiting_lobby_next_action lib claims wallet)),
        games_of-append q.my_active_items (item (wait_for_reveal, false)),
      )
  add_classified-games_at reveal_required game claims q = ground (
    arith,
    games_of-append q.reveal_required_items
        (item_of game claims true reveal_required (resolve_reveal_next_action lib claims wallet)),
  )
  add_classified-games_at expired_attention game claims q = ground (
    arith,
    games_of-append q.expired_attention_items (
        item_of game claims true expired_attention
          (resolve_expired_follow_up_next_action lib claims wallet)),
  )
  add_classified-games_at history game claims q = ground (
    arith,
    games_of-append q.history_items (item_of game claims true history (browse_history, false)),
  )
  add_classified-games_at (other_queue k) game claims q = ground arith

  module _ (w : World) where
    -- The loop over the games of the player adds each game to the queue in which it stands.
    pub fill_player-games_at :
        (key : ActivityQueueKey) (c : Coordination) (games : List Game) (q q' : Queues)
        → (fill_player lib w c wallet games q).1 ≡ ok q'
        → games_at key q' ≡ games_at key q ++ keep_if (stands_in key) games
    unfolding fill_player keep_if
    fill_player-games_at key c [] q q' h =
        let e : q ≡ q' = ground arith in
        ap (games_at key) (sym e) ∙ sym (append_nil (games_at key q))
    fill_player-games_at key c (game ∷ games) q q' h =
        let (c', loaded, effects) = load_claims lib w c game.game_id in
        elim (Outcome-cases loaded) [
          | inr (e, p) ↦ absurd (ground arith)
          | inl (claims, p) ↦
              let added = add_classified (classify lib game claims wallet) q in
              let r = fill_player-games_at key c' games added q' (ground arith) in
              let a = add_classified-games_at key game claims q in
              elim (Bool-cases (stands_in key game)) [
                | inl s ↦
                    rw (r, a, s)
                      (append_assoc (games_at key q) (game ∷ []) (keep_if (stands_in key) games))
                | inr s ↦ rw (r, a, s) refl
              ]
        ]

    -- The loop over the games that wait adds those of others to the joinable queue, and no others.
    pub fill_joinable-games_at :
        (c : Coordination) (games : List Game) (q q' : Queues)
        → is_empty wallet ≡ false
        → (fill_joinable lib w c wallet games q).1 ≡ ok q'
        → games_at joinable q' ≡ games_at joinable q ++ keep_if is_joinable games
    unfolding fill_joinable keep_if items_at add_item
    fill_joinable-games_at c [] q q' n h =
        let e : q ≡ q' = ground arith in
        ap (games_at joinable) (sym e) ∙ sym (append_nil (games_at joinable q))
    fill_joinable-games_at c (game ∷ games) q q' n h =
        elim (Bool-cases (belongs_to_wallet lib game wallet)) [
          | inl b ↦ rw b (fill_joinable-games_at c games q q' n (ground arith))
          | inr b ↦
              let (c', loaded, effects) = load_claims lib w c game.game_id in
              elim (Outcome-cases loaded) [
                | inr (e, p) ↦ absurd (ground arith)
                | inl (claims, p) ↦
                    let item =
                      item_of game claims false joinable
                        (resolve_joinable_next_action lib claims wallet) in
                    let added = add_item joinable item q in
                    let r = fill_joinable-games_at c' games added q' n (ground arith) in
                    rw (r, games_of-append q.joinable_items item, b)
                      (append_assoc (games_at joinable q) (game ∷ []) (keep_if is_joinable games))
              ]
        ]

    -- That loop leaves the queues of the player's own games as they are.
    pub fill_joinable-same :
        (key : ActivityQueueKey) (c : Coordination) (games : List Game) (q q' : Queues)
        → is_own_queue key ≡ true
        → (fill_joinable lib w c wallet games q).1 ≡ ok q'
        → games_at key q' ≡ games_at key q
    unfolding fill_joinable
    fill_joinable-same key c [] q q' k h =
        let e : q ≡ q' = ground arith in ap (games_at key) (sym e)
    fill_joinable-same key c (game ∷ games) q q' k h =
        elim (Bool-cases (not (is_empty wallet) && belongs_to_wallet lib game wallet)) [
          | inl b ↦ fill_joinable-same key c games q q' k (ground arith)
          | inr b ↦
              let (c', loaded, effects) = load_claims lib w c game.game_id in
              elim (Outcome-cases loaded) [
                | inr (e, p) ↦ absurd (ground arith)
                | inl (claims, p) ↦
                    let item =
                      item_of game claims false joinable
                        (resolve_joinable_next_action lib claims wallet) in
                    fill_joinable-same key c' games (add_item joinable item q) q' k (ground arith)
                    ∙ add_joinable-same key item q k
              ]
        ]
