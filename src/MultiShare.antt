-- ===== src/MultiShare.antt =====
-- multi_share.cpp: a coordinator and one worker for each device, which share their host buffers.
pub mod Barriers
pub mod Options
pub mod Cpu
pub mod Worker
