-- ===== src/Tests.antt =====
-- Runs at concrete inputs, and each theorem with a hypothesis applied where it holds.
mod Clocks
mod Ops
mod Stores
mod Plans
mod Replicas
mod Engines
mod Messages
mod Reads
mod Locals
mod Schemas
mod Signals
mod Databases
mod Ciphers
mod Spaces
