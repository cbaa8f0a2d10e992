-- ===== src/UserManagement.antt =====
-- internal/usecase/user_management.go, `UserManagementUseCase`, over the table of users.
pub mod Reports
pub mod Profiles
use pod_backend.Common.{Option, none, some, Text, is_empty, if◌then◌else◌}
use pod_backend.Database.{Tables, Server, message, Action, throw, wrap, check, ◌>>◌}
use pod_backend.Database.Statistics.{get_by_wallet_address, get_referral_stats}
use pod_backend.Database.Users.{create_or_update}
use pod_backend.Entity.User.{User, ReferralStats, validate_user}

module _ (server : Server) where
  -- `CreateOrUpdateUser`; the result is the user as the call leaves it.
  unfoldable pub create_or_update_user : User → Action Tables User
  create_or_update_user u = do
    check "user validation failed" (validate_user u)
    wrap "failed to create or update user" (create_or_update server u)

  -- `GetUserByWallet`; the repository returns no nil user.
  unfoldable pub get_user_by_wallet : Text → Action Tables User
  get_user_by_wallet w =
      if is_empty w
      then throw (message "wallet address is required")
      else wrap "failed to get user by wallet" (get_by_wallet_address server w)

  -- `GetReferralStats`; the repository returns no nil statistics.
  unfoldable pub get_stats_of_referrals : Text → Action Tables ReferralStats
  get_stats_of_referrals w =
      if is_empty w
      then throw (message "wallet address is required")
      else wrap "failed to get referral stats" (get_referral_stats server w)
