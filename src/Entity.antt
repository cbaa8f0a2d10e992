-- ===== src/Entity.antt =====
-- internal/entity: the records that the use cases exchange, their validation and their errors.
pub mod Game
pub mod Reservation
pub mod DeadLetter
pub mod Activity
pub mod GameEvent
pub mod User
pub mod Errors
pub mod Repository
