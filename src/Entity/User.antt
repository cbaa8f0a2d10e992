-- ===== src/Entity/User.antt =====
-- internal/entity/user.go. Instants are nanoseconds from a fixed origin.
use Prim.Native.String.{String}
use pod_backend.Common.{
  ℕ, Bool, not, Option, none, some, Text, is_empty, ℤ, pos, leb_ℤ, ltb_ℤ, if◌then◌else◌, false,
}
use pod_backend.Entity.Game.{is_ton_address}

pub record User : Type 0 where
  pub id : ℤ
  pub telegram_user_id : Option ℤ
  pub telegram_username : Text
  pub wallet_address : Text
  pub total_games_played : ℤ
  pub total_wins : ℤ
  pub total_losses : ℤ
  pub total_referrals : ℤ
  pub total_referral_earnings : ℤ
  pub created_at : ℕ
  pub updated_at : ℕ

-- `u.TelegramUserID != nil && *u.TelegramUserID <= 0`
unfoldable pub not_positive : Option ℤ → Bool
not_positive none = false
not_positive (some n) = leb_ℤ n (pos 0)

-- `Validate`: the message of the first check that fails.
unfoldable pub validate_user : User → Option String
unfolding not_positive
validate_user u =
    if is_empty u.wallet_address
    then some "wallet_address is required"
    else if not (is_ton_address u.wallet_address)
    then some "wallet_address must be valid TON address format (EQ...)"
    else if not_positive u.telegram_user_id
    then some "telegram_user_id must be positive when provided"
    else if ltb_ℤ u.total_games_played (pos 0)
    then some "total_games_played cannot be negative"
    else if ltb_ℤ u.total_wins (pos 0)
    then some "total_wins cannot be negative"
    else if ltb_ℤ u.total_losses (pos 0)
    then some "total_losses cannot be negative"
    else if ltb_ℤ u.total_referrals (pos 0)
    then some "total_referrals cannot be negative"
    else if ltb_ℤ u.total_referral_earnings (pos 0)
    then some "total_referral_earnings cannot be negative"
    else none

-- `ReferralStats`
pub record ReferralStats : Type 0 where
  pub stats_wallet_address : Text
  pub referrals : ℤ
  pub referral_earnings : ℤ
  pub games_referred : ℤ
