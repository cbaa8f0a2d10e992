-- ===== src/GamePersistence/Settling.antt =====
-- How `HandleGameFinished` of internal/usecase/game_persistence.go settles a game.
use pod_backend.Common.{
  Bool, false, Option, none, some, [], ◌∷◌, Text, codes, is_empty, ℤ, pos, ltb_ℤ, eqb, text_eq,
  mul_int64, quot_ℤ, Outcome, ok, err, if◌then◌else◌,
}
use pod_backend.Database.{Fault, Action, pure, wrap, ◌>>=◌, ◌>>◌}
use pod_backend.Database.Games.{complete_game}
use pod_backend.Database.Users.{
  increment_games_played, increment_wins, increment_losses, increment_referrals,
}
use pod_backend.Entity.Game.{Game}
use pod_backend.Entity.GameEvent.{EventData}
use pod_backend.GamePersistence.{current, Env, System, db, persist_event, unless_duplicate}
use pod_backend.GamePersistence.Extract.{extract_int64}

-- The players and fees that `HandleGameFinished` settles.
pub record Settlement : Type 0 where
  pub winner : Text
  pub loser : Text
  pub payout : ℤ
  pub referrer : Option Text
  pub earnings : ℤ

unfoldable pub or_empty : Option Text → Text
or_empty none = []
or_empty (some w) = w

-- `loser`, which stays empty if the winner has no opponent.
unfoldable pub loser_of : Game → Text → Text
unfolding or_empty
loser_of g winner =
    if eqb g.player_one_address winner then or_empty g.player_two_address else g.player_one_address

is_winner : Option Text → Text → Bool
is_winner none winner = false
is_winner (some two) winner = eqb two winner

-- The referrer of the second player, if that player won.
referrer_two : Game → Text → Option Text
unfolding is_winner
referrer_two g winner =
    if is_winner g.player_two_address winner then g.player_two_referrer else none

-- `referrerAddress`: the referrer of the player who won.
unfoldable pub referrer_of : Game → Text → Option Text
unfolding referrer_two
referrer_of g winner =
    if eqb g.player_one_address winner
    then elim g.player_one_referrer [ none ↦ referrer_two g winner | some r ↦ some r ]
    else referrer_two g winner

-- `referrerEarnings`, in `int64`: in basis points of the bet, 0 with no referrer.
unfoldable pub earnings_of : Game → Option Text → ℤ
unfolding or_empty
earnings_of g referrer =
    if is_empty (or_empty referrer)
    then pos 0
    else quot_ℤ (mul_int64 g.bet_amount g.referrer_fee_numerator) 10000

unfoldable pub settle : Game → Text → ℤ → Settlement
settle g winner payout = record {
  winner = winner;
  loser = loser_of g winner;
  payout = payout;
  referrer = referrer_of g winner;
  earnings = earnings_of g (referrer_of g winner);
}

module _ (env : Env) where
  -- The counters that a settlement moves.
  unfoldable pub count_loser : Text → Action System (Unit {0})
  count_loser [] = pure tt
  count_loser (c ∷ w) = do
    wrap "failed to increment games played for loser"
        (db (increment_games_played env.server (c ∷ w)))
    wrap "failed to increment losses" (db (increment_losses env.server (c ∷ w)))

  unfoldable pub count_referrer : Text → ℤ → Action System (Unit {0})
  count_referrer [] earnings s = (ok tt, s)
  count_referrer (c ∷ w) earnings s =
      if ltb_ℤ (pos 0) earnings
      then wrap "failed to update referrer stats"
          (db (increment_referrals env.server (c ∷ w) earnings)) s
      else (ok tt, s)

  -- `CompleteGame` and the statistics of the players.
  unfoldable pub finish_game : Settlement → Action System (Unit {0})
  unfolding or_empty
  finish_game x = do
    e ← current
    wrap "failed to complete game"
        (db (complete_game env.server e.game_id x.winner x.payout e.transaction_hash e.timestamp))
    wrap "failed to increment games played for winner"
        (db (increment_games_played env.server x.winner))
    wrap "failed to increment wins" (db (increment_wins env.server x.winner))
    count_loser x.loser
    count_referrer (or_empty x.referrer) x.earnings

  -- The body of the transaction of `HandleGameFinished`; its other branch is the same without one.
  unfoldable pub settle_game : Settlement → Action System (Unit {0})
  settle_game x = do persist_event env; unless_duplicate (finish_game x)

  -- `total_gainings`, else `payout`, else 0.
  unfoldable pub payout_of : EventData → Outcome Fault ℤ
  payout_of d = elim (extract_int64 env.to_int64 (codes "total_gainings") d) [
    | ok z ↦ ok z
    | err _ ↦ elim (extract_int64 env.to_int64 (codes "payout") d) [
      | ok z ↦ ok z
      | err _ ↦ ok (pos 0)
    ]
  ]
