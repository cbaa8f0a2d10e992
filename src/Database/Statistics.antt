-- ===== src/Database/Statistics.antt =====
-- The reads of internal/repository/postgres/user_repository.go that aggregate over the games.
use pod_backend.Common.{
  ℕ, suc, Bool, true, false, not, ◌&&◌, ◌||◌, Option, none, some, List, [], ◌∷◌, ◌++◌, Text, ℤ, pos,
  eqb, eqb_ℤ, text_eq, contains, count_if, ok, err, if◌then◌else◌,
}
use pod_backend.Common.Dict.{lookup}
use pod_backend.Database.{Tables, UserRow, Server, message, Action, wrap, execute}
use pod_backend.Database.Games.{rows}
use pod_backend.Database.Users.{scan_user}
use pod_backend.Entity.Game.{Game, status_ended, status_paid}
use pod_backend.Entity.User.{User, ReferralStats}

unfoldable pub is? : Text → Option Text → Bool
is? w none = false
is? w (some x) = eqb x w

abbrev is_null {ℓ} : {A : Type ℓ} → Option A → Bool
is_null none = true
is_null (some _) = false

-- `g.player_one_address = $1 OR g.player_two_address = $1`
unfoldable pub is_player : Text → Game → Bool
unfolding is?
is_player w g = eqb g.player_one_address w || is? w g.player_two_address

-- `g.status IN ($2, $3)`
unfoldable pub is_over : Game → Bool
is_over g = eqb_ℤ g.status status_ended || eqb_ℤ g.status status_paid

-- The filters of the three counts, for a game of the player.
unfoldable pub counts_as_played : Game → Bool
counts_as_played g = is_over g && not (is_null g.winner_address && is_null g.payout_amount)

unfoldable pub counts_as_won : Text → Game → Bool
unfolding is?
counts_as_won w g = is_over g && is? w g.winner_address

unfoldable pub counts_as_lost : Text → Game → Bool
unfolding is?
counts_as_lost w g = is_over g && not (is_null g.winner_address) && not (is? w g.winner_address)

-- Distinct wallets in a list.
unfoldable pub count_distinct : List Text → ℕ
count_distinct [] = 0
count_distinct (w ∷ ws) = let n = count_distinct ws in if contains w ws then n else suc n

unfoldable pub if_some : Bool → Option Text → List Text
if_some true (some w) = w ∷ []
if_some _ _ = []

-- The `UNION ALL` of the players whom a wallet has referred.
unfoldable pub referred_wallets : Text → List Game → List Text
unfolding is? if_some
referred_wallets w [] = []
referred_wallets w (g ∷ gs) =
    (if is? w g.player_one_referrer then g.player_one_address ∷ [] else [])
    ++ if_some (is? w g.player_two_referrer) g.player_two_address
    ++ referred_wallets w gs

-- `g.player_one_referrer = $1 OR g.player_two_referrer = $1`
is_referred : Text → Game → Bool
unfolding is?
is_referred w g = is? w g.player_one_referrer || is? w g.player_two_referrer

-- The aggregates of `GetByWalletAddress` in place of the stored counters.
unfoldable pub with_statistics : Text → List Game → User → User
unfolding count_distinct referred_wallets
with_statistics w games u = record u {
  total_games_played = pos (count_if (λ g. is_player w g && counts_as_played g) games);
  total_wins = pos (count_if (λ g. is_player w g && counts_as_won w g) games);
  total_losses = pos (count_if (λ g. is_player w g && counts_as_lost w g) games);
  total_referrals = pos (count_distinct (referred_wallets w games));
}

earnings_of_user : Option UserRow → ℤ
earnings_of_user none = pos 0
earnings_of_user (some u) = u.columns.total_referral_earnings

module _ (server : Server) where
  -- `GetByWalletAddress`, and `GetByWallet` by that name.
  unfoldable pub get_by_wallet_address : Text → Action Tables User
  get_by_wallet_address w = wrap "execute query" (
      execute server (λ _ t. elim (lookup w t.users) [
        | none ↦ (err (message "no rows in result set"), t)
        | some u ↦ elim (scan_user u) [
          | err e ↦ (err e, t)
          | ok user ↦ (ok (with_statistics w (rows t.games) user), t)
        ]
      ]))

  -- `GetReferralStats`
  unfoldable pub get_referral_stats : Text → Action Tables ReferralStats
  unfolding count_distinct referred_wallets is_referred earnings_of_user
  get_referral_stats w = wrap "execute query" (
      execute server (λ _ t.
        let games = rows t.games in
        (
          ok (record {
            stats_wallet_address = w;
            referrals = pos (count_distinct (referred_wallets w games));
            referral_earnings = earnings_of_user (lookup w t.users);
            games_referred = pos (count_if (is_referred w) games);
          }),
          t,
        )))
