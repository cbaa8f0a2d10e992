-- ===== src/Entity/Repository.antt =====
-- internal/repository/game_repository.go: what the coordination use cases read of a repository.
use pod_backend.Common.{ℤ, Option, Outcome}
use pod_backend.Entity.Game.{Game}
use pod_backend.Entity.Errors.{Error}

-- `GetByID`: an error, no game, or the game.
abbrev pub GetById : Type 0
GetById = ℤ → Outcome Error (Option Game)
