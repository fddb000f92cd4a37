-- ===== src/Tests.antt =====
-- Concrete runs: a backend in memory, and the theorems at concrete inputs.
mod Fixture
mod Chat
mod Presence
mod Repositories
mod Queue
mod Offline
mod Link
mod Web
mod Crossing
mod Boot
mod Load
mod Loops
mod Prepare
mod Accounts
mod Arrives
mod HalfOpened
mod NilChannel
