-- ===== src/Database/Players.antt =====
-- The games of a player in internal/repository/postgres/game_repository.go.
use pod_backend.Common.{
  Bool, false, ◌&&◌, ◌||◌, Option, none, some, List, [], ◌∷◌, ◌++◌, Text, is_empty, trim_space, ℤ,
  int_eq, text_eq, contains, if◌then◌else◌,
}
use pod_backend.Database.{Tables, Server, Action, pure}
use pod_backend.Database.Games.{query_games}
use pod_backend.Entity.Game.{Game}

-- The `tonutils-go` part of `buildWalletAddressVariants`: the six renderings of the parsed address,
-- or none if neither parser takes the text.
abbrev pub Renderings : Type 0
Renderings = Text → Option (List Text)

append_variant : List Text → Text → List Text
append_variant seen candidate =
    let c = trim_space candidate in
    if is_empty c then seen else if contains c seen then seen else seen ++ c ∷ []

append_variants : List Text → List Text → List Text
unfolding append_variant
append_variants seen [] = seen
append_variants seen (c ∷ cs) = append_variants (append_variant seen c) cs

-- `buildWalletAddressVariants`
unfoldable pub build_wallet_address_variants : Renderings → Text → List Text
unfolding append_variants
build_wallet_address_variants render wallet =
    let trimmed = trim_space wallet in
    if is_empty trimmed then [] else elim (render trimmed) [
      | none ↦ append_variants [] (trimmed ∷ [])
      | some others ↦ append_variants [] (trimmed ∷ others)
    ]

is_among : List Text → Option Text → Bool
is_among ws none = false
is_among ws (some w) = contains w ws

-- `buildPlayerAddressPredicate`
unfoldable pub is_played_by : List Text → Game → Bool
unfolding is_among
is_played_by ws g = contains g.player_one_address ws || is_among ws g.player_two_address

module _ (server : Server) (render : Renderings) where
  -- `GetByPlayerAddress`, and `GetByPlayer` by that name.
  unfoldable pub get_by_player_address : Text → Action Tables (List Game)
  get_by_player_address wallet = elim (build_wallet_address_variants render wallet) [
    | [] ↦ pure []
    | w ∷ ws ↦ query_games server (is_played_by (w ∷ ws))
  ]

  -- `GetByPlayerAndStatuses`
  unfoldable pub get_by_player_and_statuses : Text → List ℤ → Action Tables (List Game)
  get_by_player_and_statuses wallet [] = pure []
  get_by_player_and_statuses wallet (s ∷ ss) = elim (build_wallet_address_variants render wallet) [
    | [] ↦ pure []
    | w ∷ ws ↦ query_games server (λ g. is_played_by (w ∷ ws) g && contains g.status (s ∷ ss))
  ]
