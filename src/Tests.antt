-- ===== src/Tests.antt =====
-- Runs at concrete inputs: each applies a theorem to a driver, a world or a text written out here.
pub mod Worlds
mod Strategy
mod Transport
mod Demo
pub mod Probes
pub mod Shares
pub mod Host
mod Multi
mod Uva
mod Aio
mod Phase
mod Options
