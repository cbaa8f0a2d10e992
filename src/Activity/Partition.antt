-- ===== src/Activity/Partition.antt =====
-- Which queue a game stands in, and how often.
use pod_backend.Common.{
  ℕ, ◌+◌, ◌≡◌, refl, ◌⊎◌, Bool, true, false, ◌||◌, none, some, List, [], ◌∷◌, Text, eqb_ℤ, length,
  length-append, count_if, to_count, Outcome-cases, inl, inr, Bool-cases, ok, arith, int_eq,
  text_eq,
}
use pod_backend.Activity.{Coordination, player_needs_reveal}
use pod_backend.Activity.Queues.{
  Queues, add_item, item_of, classify, load_claims, add_classified, fill_player,
}
use pod_backend.Entity.Activity.{
  ActivityQueueKey, joinable, my_active, reveal_required, expired_attention, history, other_queue,
  ActionClaim, PlayerActivityGame,
}
use pod_backend.Entity.Game.{
  Game, status_waiting_for_opponent, status_waiting_for_open_bids, status_ended, status_paid,
}
use pod_backend.Ledger.{World}
use pod_backend.Wallet.{AddressLib}

-- The items of the four queues of a player's own games.
abbrev pub own_items : Queues → ℕ
own_items q =
    length q.my_active_items
    + length q.reveal_required_items
    + length q.expired_attention_items
    + length q.history_items

-- A status that has a queue.
abbrev pub has_queue : Game → Bool
has_queue game =
    eqb_ℤ game.status status_waiting_for_opponent
    || eqb_ℤ game.status status_waiting_for_open_bids
    || eqb_ℤ game.status status_ended
    || eqb_ℤ game.status status_paid

-- The four queues of a player's own games.
abbrev pub is_own_queue : ActivityQueueKey → Bool
is_own_queue my_active = true
is_own_queue reveal_required = true
is_own_queue expired_attention = true
is_own_queue history = true
is_own_queue _ = false

own_items-added :
    (key : ActivityQueueKey) (i : PlayerActivityGame) (q : Queues)
    → is_own_queue key ≡ true
    → own_items (add_item key i q) ≡ own_items q + 1
unfolding add_item
own_items-added joinable i q h = cc
own_items-added my_active i q h = omega (arith, length-append q.my_active_items (i ∷ []))
own_items-added reveal_required i q h =
    omega (arith, length-append q.reveal_required_items (i ∷ []))
own_items-added expired_attention i q h =
    omega (arith, length-append q.expired_attention_items (i ∷ []))
own_items-added history i q h = omega (arith, length-append q.history_items (i ∷ []))
own_items-added (other_queue k) i q h = cc

joinable-added :
    (key : ActivityQueueKey) (i : PlayerActivityGame) (q : Queues)
    → is_own_queue key ≡ true
    → (add_item key i q).joinable_items ≡ q.joinable_items
unfolding add_item
joinable-added joinable i q h = cc
joinable-added my_active i q h = refl
joinable-added reveal_required i q h = refl
joinable-added expired_attention i q h = refl
joinable-added history i q h = refl
joinable-added (other_queue k) i q h = cc

module _ (lib : AddressLib) (wallet : Text) where
  -- A game gets an item exactly if its status has a queue, and the item is in one of the four.
  classify-own :
      (game : Game) (claims : List ActionClaim)
      → ((classify lib game claims wallet ≡ none) × (has_queue game ≡ false))
        ⊎ ((i : PlayerActivityGame) × (classify lib game claims wallet ≡ some i)
            × (has_queue game ≡ true)
            × (is_own_queue i.queue_key ≡ true))
  unfolding classify item_of
  classify-own game claims = elim (Bool-cases (eqb_ℤ game.status status_waiting_for_opponent)) [
    | inl a ↦ rw a (inr (_, refl, refl, refl))
    | inr a ↦ elim (Bool-cases (eqb_ℤ game.status status_waiting_for_open_bids)) [
      | inl b ↦ elim (Bool-cases (player_needs_reveal lib game wallet)) [
        | inl p ↦ rw (a, b, p) (inr (_, refl, refl, refl))
        | inr p ↦ rw (a, b, p) (inr (_, refl, refl, refl))
      ]
      | inr b ↦ elim (Bool-cases (eqb_ℤ game.status status_ended)) [
        | inl d ↦ rw (a, b, d) (inr (_, refl, refl, refl))
        | inr d ↦ elim (Bool-cases (eqb_ℤ game.status status_paid)) [
          | inl f ↦ rw (a, b, d, f) (inr (_, refl, refl, refl))
          | inr f ↦ rw (a, b, d, f) (inl (refl, refl))
        ]
      ]
    ]
  ]

  own_items-classified :
      (game : Game) (claims : List ActionClaim) (q : Queues)
      → own_items (add_classified (classify lib game claims wallet) q)
        ≡ own_items q + to_count (has_queue game)
  unfolding add_classified
  own_items-classified game claims q = elim (classify-own game claims) [
    | inl (e, h) ↦ rw (e, h) (omega arith)
    | inr (i, e, h, k) ↦ rw (e, h) (own_items-added i.queue_key i q k)
  ]

  pub joinable-classified :
      (game : Game) (claims : List ActionClaim) (q : Queues)
      → (add_classified (classify lib game claims wallet) q).joinable_items ≡ q.joinable_items
  unfolding add_classified
  joinable-classified game claims q = elim (classify-own game claims) [
    | inl (e, h) ↦ rw e refl
    | inr (i, e, h, k) ↦ rw e (joinable-added i.queue_key i q k)
  ]

  module _ (w : World) where
    -- Every game of the player lands in exactly one of the four queues, if its status has one; the
    -- queue of joinable games does not change.
    pub fill_player-counts :
        (c : Coordination) (games : List Game) (q q' : Queues)
        → (fill_player lib w c wallet games q).1 ≡ ok q'
        → own_items q' ≡ own_items q + count_if has_queue games
    unfolding fill_player count_if
    fill_player-counts c [] q q' h = ground arith
    fill_player-counts c (game ∷ games) q q' h =
        let (c', loaded, effects) = load_claims lib w c game.game_id in
        elim (Outcome-cases loaded) [
          | inr (e, p) ↦ absurd (ground arith)
          | inl (claims, p) ↦
              let added = add_classified (classify lib game claims wallet) q in
              ground
                (arith, own_items-classified game claims q, fill_player-counts c' games added q')
        ]
