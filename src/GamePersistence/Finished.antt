-- ===== src/GamePersistence/Finished.antt =====
-- `HandleGameFinished` for an event that is new.
use pod_backend.Common.{
  Bool, ◌∷◌, ℕ, pos, ltb_ℤ, is_empty, eqb, ite, ◌≟◌, ◌⊎◌, ◌≢◌, succ_ℤ, if◌then◌else◌, text_eq,
  Option, ◌<◌, true, false, none, some, [], Text, codes, ℤ, Outcome, ok, err, ◌≡◌, refl, ap, ◌∙◌,
  arith, int_eq,
}
use pod_backend.Common.Dict.{Dict, lookup, lookup-insert}
use pod_backend.Database.{Fault, Action, Tables, execute, wrap, ◌>>=◌, ◌>>◌}
use pod_backend.Database.Events.{is_recorded}
use pod_backend.Database.Games.{completed, text_or_null, amount_or_null, get_game}
use pod_backend.Database.Keeping.{Keeps}
use pod_backend.Database.Tallies.{
  Tally, Tallies, bump, add_game, add_win, add_loss, map_some, tallies, rewrite_game, Unknown,
}
use pod_backend.Database.Triples.{Triple, Ends, bind-Triple, then-Triple, keep-Triple}
use pod_backend.Entity.Game.{Game, status_paid}
use pod_backend.Entity.GameEvent.{GameEvent, EventData}
use pod_backend.GamePersistence.{
  Env, System, game_finished, db, read, find_game, unless_duplicate, current, step,
  broadcast_game_update, release_cancel_reservation_if_unavailable,
  release_reveal_reservation_if_any, release_expired_claim_if_resolved,
}
use pod_backend.GamePersistence.Extract.{extract_string}
use pod_backend.GamePersistence.Handlers.{handle_game_finished, in_transaction, release_finished}
use pod_backend.GamePersistence.Keeping.{expects-Keeps}
use pod_backend.GamePersistence.Settlements.{
  IsNew, IsSettled, serialize-IsNew, in_transaction-Triple,
}
use pod_backend.GamePersistence.Settling.{
  Settlement, or_empty, loser_of, settle, settle_game, payout_of,
}
use pod_backend.GamePersistence.Statistics.{count_loss, settle_tallies}

-- The data of an event, as the readers see it.
abbrev pub data_of : GameEvent → EventData
data_of e = elim e.event_data [ none ↦ [] | some d ↦ d ]

-- What follows the transaction changes no row.
released_rows :
    (env : Env) (s : System)
    → let t = (unless_duplicate (release_finished env game_finished) s).1.tables in
      (t.games ≡ s.tables.games) × (t.events ≡ s.tables.events) × (t.users ≡ s.tables.users)
unfolding unless_duplicate release_finished current ◌>>=◌ ◌>>◌ step broadcast_game_update get_game
    execute wrap release_cancel_reservation_if_unavailable release_reveal_reservation_if_any
    release_expired_claim_if_resolved
released_rows env s = ground arith

opened :
    (t : Tables) (e : GameEvent) (x : Settlement) (w : Text) (r : Outcome Fault (Unit {0}) × System)
    → r.0 ≡ ok tt
    → Ends (λ _. IsSettled t e x) Unknown r
    → let t' = r.1.tables in
      (t'.games
        ≡ rewrite_game e.game_id
            (completed x.winner x.payout e.transaction_hash e.timestamp)
            t.games)
      × (tallies t'.users w ≡ settle_tallies x.winner x.loser (tallies t.users) w)
      × (is_recorded e t'.events ≡ true)
opened t e x w (ok a, s) d h = (h.game_written, h.counted w, h.recorded)
opened t e x w (err m, s) d h = absurd (ground arith)

module _ (env : Env) (t : Tables) (e : GameEvent) (g : Game) (winner : Text) (payout : ℤ)
    (found : lookup e.game_id t.games ≡ some g)
    (has_winner : extract_string (codes "winner") (data_of e) ≡ ok winner)
    (has_payout : payout_of env (data_of e) ≡ ok payout) where
  steady :
      {A : Type 0} (m : Action System A)
      → Keeps (IsNew t e) m
      → Triple (IsNew t e) (λ _. IsNew t e) Unknown m
  steady m k = keep-Triple (IsNew t e) Unknown m (λ s h. tt) k

  find_game-Triple : Triple (IsNew t e) (λ x s. IsNew t e s × (x ≡ g)) Unknown (find_game env)
  unfolding find_game get_game execute wrap db
  find_game-Triple = record {
    run = λ s h.
        let l : lookup s.event.game_id s.tables.games ≡ some g = rw (h.same_id, h.games) found in
        ground (arith, l);
  }

  read-Triple :
      {A : Type 0} (f : EventData → Outcome Fault A) (a : A)
      → f (data_of e) ≡ ok a
      → Triple (IsNew t e) (λ x s. IsNew t e s × (x ≡ a)) Unknown (read f)
  unfolding read
  read-Triple f a k = record {
    run = λ s h.
        let l : f (data_of s.event) ≡ ok a =
          ap (λ d. f (elim d [ none ↦ [] | some x ↦ x ])) h.same_data ∙ k in
        ground (arith, l);
  }

  -- A fact about a value that a call returned.
  with_fact :
      {A : Type 0} (P : Type 0) (R : A → System → Type 0) (m : Action System A)
      → (P → Triple (IsNew t e) R Unknown m)
      → Triple (λ s. IsNew t e s × P) R Unknown m
  with_fact P R m k = record { run = λ s h. (k h.1).run s h.0 }

  released-IsSettled :
      (s : System)
      → IsSettled t e (settle g winner payout) s
      → IsSettled t e
          (settle g winner payout)
          (unless_duplicate (release_finished env game_finished) s).1
  released-IsSettled s h =
      let (p, q, r) = released_rows env s in
      record {
        game_written = p ∙ h.game_written;
        counted = λ w. ap (λ u. tallies u w) r ∙ h.counted w;
        recorded = ap (λ l. is_recorded e l) q ∙ h.recorded;
      }

  ended :
      (r : Outcome Fault (Unit {0}) × System)
      → IsSettled t e (settle g winner payout) r.1
      → Ends (λ _. IsSettled t e (settle g winner payout)) Unknown r
  ended (ok a, s) h = h
  ended (err m, s) h = tt

  settled :
      (x : Game) (w : Text) (n : ℤ)
      → x ≡ g
      → w ≡ winner
      → n ≡ payout
      → Triple
          (IsNew t e)
          (λ _. IsSettled t e (settle g winner payout))
          Unknown
          (in_transaction env (settle_game env (settle x w n)))
  settled x w n p q r = rw (p, q, r) (in_transaction-Triple env t e (settle g winner payout))

  finished :
      Triple
        (IsNew t e)
        (λ _. IsSettled t e (settle g winner payout))
        Unknown
        (handle_game_finished env)
  unfolding handle_game_finished
  finished =
      then-Triple (IsNew t e) Unknown (IsNew t e) _ _ _ (steady _ (expects-Keeps (IsNew t e) _)) (
        bind-Triple (IsNew t e) Unknown _ _ _ _ find_game-Triple (λ x. with_fact (x ≡ g) _ _ (λ p.
          then-Triple (IsNew t e) Unknown (IsNew t e) _ _ _ (steady _ (serialize-IsNew env t e)) (
            bind-Triple (IsNew t e) Unknown _ _ _ _ (read-Triple _ winner has_winner) (λ w.
              with_fact (w ≡ winner) _ _ (λ q.
                bind-Triple (IsNew t e) Unknown _ _ _ _ (read-Triple _ payout has_payout) (λ n.
                  with_fact (n ≡ payout) _ _ (λ r.
                    then-Triple (IsNew t e) Unknown (IsSettled t e (settle g winner payout)) _ _ _
                      (settled x w n p q r)
                      (record { run = λ s h. ended _ (released-IsSettled s h) })))))))))

-- The same in the terms of the settlement.
handle_game_finished_lem :
    (env : Env) (s : System) (g : Game) (winner : Text) (payout : ℤ) (w : Text)
    → lookup s.event.game_id s.tables.games ≡ some g
    → extract_string (codes "winner") (data_of s.event) ≡ ok winner
    → payout_of env (data_of s.event) ≡ ok payout
    → is_recorded s.event s.tables.events ≡ false
    → 0 < s.tables.next_event_id
    → (handle_game_finished env s).0 ≡ ok tt
    → let t = (handle_game_finished env s).1.tables in
      (t.games
        ≡ rewrite_game s.event.game_id
            (completed winner payout s.event.transaction_hash s.event.timestamp)
            s.tables.games)
      × (tallies t.users w ≡ settle_tallies winner (loser_of g winner) (tallies s.tables.users) w)
      × (is_recorded s.event t.events ≡ true)
unfolding settle
handle_game_finished_lem env s g winner payout w found hw hp new n done =
    let here : IsNew s.tables s.event s = record {
      games = refl;
      events = refl;
      users = refl;
      numbered = n;
      unrecorded = new;
      same_id = refl;
      same_hash = refl;
      same_time = refl;
      same_data = refl;
      same_kind = refl;
    } in
    opened s.tables s.event (settle g winner payout) w (handle_game_finished env s) done
      ((finished env s.tables s.event g winner payout found hw hp).run s here)

-- The player who loses a game to its winner: the second, if the first has won, and else the first.
abbrev pub IsOpponent : Game → Text → Text → Type 0
IsOpponent g winner loser =
    ((g.player_one_address ≡ winner) × (g.player_two_address ≡ some loser))
    ⊎ ((g.player_one_address ≢ winner) × (loser ≡ g.player_one_address))

loser_of-IsOpponent :
    (g : Game) (winner loser : Text) → IsOpponent g winner loser → loser_of g winner ≡ loser
unfolding loser_of or_empty
loser_of-IsOpponent g winner loser o = ground arith

completed_lem :
    (winner hash : Text) (payout : ℤ) (at : ℕ) (g : Game)
    → is_empty winner ≡ false
    → ltb_ℤ (pos 0) payout ≡ true
    → completed winner payout hash at g ≡ record g {
      status = status_paid;
      winner_address = some winner;
      payout_amount = some payout;
      complete_tx_hash = some hash;
      completed_at = some at;
    }
unfolding completed text_or_null amount_or_null
completed_lem [] hash payout at g n p = cc
completed_lem (c ∷ w) hash payout at g n p = ground arith

lookup-rewrite_game :
    (i j : ℤ) (f : Game → Game) (games : Dict ℤ Game) (g : Game)
    → lookup i games ≡ some g
    → lookup j (rewrite_game i f games) ≡ ite (i ≟ j) (some (f g)) (lookup j games)
lookup-rewrite_game i j f games g e = ground (arith, e, lookup-insert i j (f g) games)

-- The counters of a wallet after a game: each is raised by one if the test next to it holds.
abbrev pub raised : Bool → ℤ → ℤ
raised b z = if b then succ_ℤ z else z

abbrev pub after_game : Bool → Bool → Tally → Tally
after_game won lost c = record {
  games = raised lost (raised won c.games);
  wins = raised won c.wins;
  losses = raised lost c.losses;
}

bump_lem :
    (f : Tally → Tally) (u w : Text) (m : Tallies)
    → bump f u m w ≡ (if eqb u w then map_some f (m w) else m w)
bump_lem f u w m = ground arith

after_game_lem :
    (won lost : Bool) (o : Option Tally)
    → (let o1 = if won then map_some add_game o else o in
        let o2 = if won then map_some add_win o1 else o1 in
        let o3 = if lost then map_some add_game o2 else o2 in
        if lost then map_some add_loss o3 else o3)
      ≡ map_some (after_game won lost) o
after_game_lem true true none = refl
after_game_lem true true (some t) = refl
after_game_lem true false none = refl
after_game_lem true false (some t) = refl
after_game_lem false true none = refl
after_game_lem false true (some t) = refl
after_game_lem false false none = refl
after_game_lem false false (some t) = refl

settle_tallies_lem :
    (winner loser w : Text) (m : Tallies)
    → is_empty loser ≡ false
    → settle_tallies winner loser m w ≡ map_some (after_game (eqb winner w) (eqb loser w)) (m w)
unfolding settle_tallies count_loss
settle_tallies_lem winner [] w m e = cc
settle_tallies_lem winner (c ∷ l) w m e =
    let m1 = bump add_game winner m in
    let m2 = bump add_win winner m1 in
    let m3 = bump add_game (c ∷ l) m2 in
    rw
      (
        bump_lem add_loss (c ∷ l) w m3,
        bump_lem add_game (c ∷ l) w m2,
        bump_lem add_win winner w m1,
        bump_lem add_game winner w m,
      )
      (after_game_lem (eqb winner w) (eqb (c ∷ l) w) (m w))

-- A `GameFinished` event that was not recorded before, for a game that has two players, with a
-- winner and a positive payout, is settled when its handler returns no error, in a transaction or
-- without one. The row of the game, and no other, has changed: it is paid, and carries the winner,
-- the payout, and the transaction and the time of the event. A wallet that has a user has one more
-- game and one more win if it is the winner's, one more game and one more loss if it is the
-- opponent's, who is the second player if the first has won and else the first, and the counters of
-- before if it is neither; a wallet without a user still has none. The event is recorded. The
-- premises say which game the event is for, who won and what was paid, as the readers of the event's
-- data return them, and that the ids of events begin above 0.
pub handle_game_finished-settles :
    (env : Env) (s : System) (g : Game) (winner loser : Text) (payout : ℤ) (w : Text) (j : ℤ)
    → lookup s.event.game_id s.tables.games ≡ some g
    → extract_string (codes "winner") (data_of s.event) ≡ ok winner
    → payout_of env (data_of s.event) ≡ ok payout
    → IsOpponent g winner loser
    → is_empty winner ≡ false
    → is_empty loser ≡ false
    → ltb_ℤ (pos 0) payout ≡ true
    → is_recorded s.event s.tables.events ≡ false
    → 0 < s.tables.next_event_id
    → (handle_game_finished env s).0 ≡ ok tt
    → let t = (handle_game_finished env s).1.tables in
      (lookup j t.games
        ≡ ite
            (s.event.game_id ≟ j)
            (some (record g {
              status = status_paid;
              winner_address = some winner;
              payout_amount = some payout;
              complete_tx_hash = some s.event.transaction_hash;
              completed_at = some s.event.timestamp;
            }))
            (lookup j s.tables.games))
      × (tallies t.users w
          ≡ map_some (after_game (eqb winner w) (eqb loser w)) (tallies s.tables.users w))
      × (is_recorded s.event t.events ≡ true)
handle_game_finished-settles env s g winner loser payout w j found hw hp o nw nl p new n done =
    let e = s.event in
    let f = completed winner payout e.transaction_hash e.timestamp in
    let (written, counted, recorded) =
      handle_game_finished_lem env s g winner payout w found hw hp new n done in
    let row = ap (lookup j) written ∙ lookup-rewrite_game e.game_id j f s.tables.games g found in
    let q = completed_lem winner e.transaction_hash payout e.timestamp g nw p in
    let tally =
      ap (λ l. settle_tallies winner l (tallies s.tables.users) w)
        (loser_of-IsOpponent g winner loser o) in
    (
      row ∙ ap (λ r. ite (e.game_id ≟ j) (some r) (lookup j s.tables.games)) q,
      counted ∙ tally ∙ settle_tallies_lem winner loser w (tallies s.tables.users) nl,
      recorded,
    )
