-- ===== src/Tests.antt =====
-- The theorems at concrete inputs.
mod Lines
mod Blocks
mod Machine
mod Named
mod Settings
mod Replies
mod Checks
mod Patched
mod Http
mod Agents
mod Processes
