-- ===== src/Wallet.antt =====
-- Wallet addresses as the use cases compare them: `normalizeReservationWallet` and
-- `sameReservationWallet` of internal/usecase/reservation.go, and the participants of a game.
pub mod Laws
use pod_backend.Common.{
  ℕ, Bool, true, false, ◌||◌, Option, none, some, Text, [], ◌∷◌, trim_space, to_lower, eqb, text_eq,
  if◌then◌else◌,
}
use pod_backend.Entity.Game.{Game}

-- What the code takes from outside: `address.ParseAddr` of tonutils-go followed by `StringRaw`
-- (none if the parser refuses the text), and the lower-case table of Unicode beyond ASCII.
pub record AddressLib : Type 0 where
  pub parse_raw : Text → Option Text
  pub lower_beyond : ℕ → ℕ

module _ (lib : AddressLib) where
  -- The part behind the trim.
  normalize_trimmed : Text → Text
  normalize_trimmed [] = []
  normalize_trimmed (c ∷ s) = elim (lib.parse_raw (c ∷ s)) [
    | none ↦ to_lower lib.lower_beyond (c ∷ s)
    | some raw ↦ raw
  ]

  unfoldable pub normalize_reservation_wallet : Text → Text
  unfolding normalize_trimmed
  normalize_reservation_wallet w = normalize_trimmed (trim_space w)

  -- The first branch of `sameReservationWallet` compares with the empty string.
  same_as : Text → Text → Bool
  same_as w [] = eqb (normalize_reservation_wallet w) []
  same_as w (c ∷ n) = eqb (normalize_reservation_wallet w) (c ∷ n)

  unfoldable pub same_reservation_wallet : Text → Text → Bool
  unfolding same_as
  same_reservation_wallet w normalized = same_as w normalized

  abbrev pub same_optional_wallet : Option Text → Text → Bool
  same_optional_wallet none n = false
  same_optional_wallet (some w) n = same_reservation_wallet w n

  -- `isGameParticipant` of reveal_reservation.go.
  unfoldable pub is_game_participant : Game → Text → Bool
  is_game_participant g n =
      if same_reservation_wallet g.player_one_address n
      then true
      else if same_optional_wallet g.player_two_address n
      then true
      else false
