-- ===== src/GamePersistence/Statistics.antt =====
-- What `HandleGameFinished` writes when it succeeds for an event that is new: the row of the game, and
-- the counters of the players, once.
use Prim.Native.String.{String}
use pod_backend.Common.{List, [], ◌∷◌, Text, ℤ, pos, ltb_ℤ, Outcome, ok, err, Bool-cases, inl, inr}
use pod_backend.Common.Dict.{Dict}
use pod_backend.Database.{Tables, Fault, Action, wrap, ◌>>=◌}
use pod_backend.Database.Games.{completed}
use pod_backend.Database.Tallies.{
  Holds, Tallies, bump, add_game, add_win, add_loss, rewrite_game, Unknown,
  increment_games_played-Triple, increment_wins-Triple, increment_losses-Triple,
  increment_referrals-Triple, complete_game-Triple,
}
use pod_backend.Database.Triples.{Triple, Ends, then-Triple, wrap-Triple, pure-Triple}
use pod_backend.Entity.Game.{Game}
use pod_backend.Entity.GameEvent.{GameEvent}
use pod_backend.GamePersistence.{Env, System, db, current}
use pod_backend.GamePersistence.Settling.{Settlement, finish_game, count_loser, count_referrer}

-- The counters after a settlement: a game and a win for the winner, a game and a loss for a loser who
-- is known.
unfoldable pub count_loss : Text → Tallies → Tallies
count_loss [] m = m
count_loss (c ∷ w) m = bump add_loss (c ∷ w) (bump add_game (c ∷ w) m)

unfoldable pub settle_tallies : Text → Text → Tallies → Tallies
unfolding count_loss
settle_tallies winner loser m = count_loss loser (bump add_win winner (bump add_game winner m))

abbrev At : Dict ℤ Game → List GameEvent → Tallies → System → Type 0
At games events m s = Holds games events m s.tables

lift_ends :
    {A : Type 0} (Q : A → Tables → Type 0) (r : Outcome Fault A × Tables) (s : System)
    → Ends Q Unknown r
    → Ends (λ a (s : System). Q a s.tables) Unknown (r.0, record s { tables = r.1 })
lift_ends Q (ok a, t) s h = h
lift_ends Q (err e, t) s h = tt

db-Triple :
    {A : Type 0} (P : Tables → Type 0) (Q : A → Tables → Type 0) (m : Action Tables A)
    → Triple P Q Unknown m
    → Triple (λ (s : System). P s.tables) (λ a s. Q a s.tables) Unknown (db m)
unfolding db
db-Triple P Q m t = record { run = λ s h. lift_ends Q (m s.tables) s (t.run s.tables h) }

module _ (env : Env) (events : List GameEvent) where
  step-Triple :
      {A : Type 0} (context : String) (g g' : Dict ℤ Game) (m m' : Tallies) (a : Action Tables A)
      → Triple (Holds g events m) (λ _. Holds g' events m') Unknown a
      → Triple (At g events m) (λ _. At g' events m') Unknown (wrap context (db a))
  step-Triple context g g' m m' a t =
      wrap-Triple (At g events m) Unknown (λ _. At g' events m') context _
        (db-Triple (Holds g events m) (λ _. Holds g' events m') a t)

  count_loser-Triple :
      (g : Dict ℤ Game) (w : Text) (m : Tallies)
      → Triple (At g events m) (λ _. At g events (count_loss w m)) Unknown (count_loser env w)
  unfolding count_loser count_loss
  count_loser-Triple g [] m = pure-Triple (λ _. At g events m) Unknown tt
  count_loser-Triple g (c ∷ w) m =
      then-Triple (At g events m) Unknown (At g events (bump add_game (c ∷ w) m)) _ _ _
        (step-Triple _ g g m _ _ (increment_games_played-Triple g events m env.server (c ∷ w)))
        (step-Triple _ g g _ _ _ (increment_losses-Triple g events _ env.server (c ∷ w)))

  count_referrer-Triple :
      (g : Dict ℤ Game) (w : Text) (n : ℤ) (m : Tallies)
      → Triple (At g events m) (λ _. At g events m) Unknown (count_referrer env w n)
  unfolding count_referrer
  count_referrer-Triple g [] n m = record { run = λ s h. h }
  count_referrer-Triple g (c ∷ w) n m = record {
    run = λ s h. elim (Bool-cases (ltb_ℤ (pos 0) n)) [
      | inl e ↦ rw e (
          (step-Triple "failed to update referrer stats" g g m m _
              (increment_referrals-Triple g events m env.server (c ∷ w) n)).run
            s h)
      | inr e ↦ rw e h
    ];
  }

  -- The row of the event's game, and the counters.
  pub finish_game-Ends :
      (x : Settlement) (g : Dict ℤ Game) (m : Tallies) (s : System)
      → At g events m s
      → Ends
          (λ _.
            At
              (rewrite_game s.event.game_id
                (completed x.winner x.payout s.event.transaction_hash s.event.timestamp)
                g)
              events
              (settle_tallies x.winner x.loser m))
          Unknown
          (finish_game env x s)
  unfolding finish_game settle_tallies current ◌>>=◌
  finish_game-Ends x g m s h =
      let e = s.event in
      let g' =
        rewrite_game e.game_id (completed x.winner x.payout e.transaction_hash e.timestamp) g in
      (then-Triple (At g events m) Unknown (At g' events m) _ _ _
          (step-Triple _ g g' m m _ (
            complete_game-Triple g events m env.server e.game_id x.winner x.payout
              e.transaction_hash e.timestamp))
          (then-Triple (At g' events m) Unknown (At g' events (bump add_game x.winner m)) _ _ _
            (step-Triple _ g' g' m _ _
              (increment_games_played-Triple g' events m env.server x.winner))
            (then-Triple (At g' events _) Unknown
              (At g' events (bump add_win x.winner (bump add_game x.winner m))) _ _ _
              (step-Triple _ g' g' _ _ _ (increment_wins-Triple g' events _ env.server x.winner))
              (then-Triple (At g' events _) Unknown
                (At g' events (settle_tallies x.winner x.loser m)) _ _ _
                (count_loser-Triple g' x.loser _) (count_referrer-Triple g' _ x.earnings _))))).run
        s h
