-- ===== src/Tests.antt =====
-- Concrete runs of the theorems.
mod Codec
mod Toy
mod Wire
mod Reply
mod Commands
mod Loop
mod Lost
mod Flash
mod Persisted
mod Programmed
mod Can
mod Saved
mod Atomic
mod Startup
mod Boards
