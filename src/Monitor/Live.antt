-- ===== src/Monitor/Live.antt =====
-- `run_live` of bot/monitor.py: the state that its tasks share, and what each task does to it between two
-- waits. The sockets, the clock and discovery are arguments.
pub mod Registry
pub mod Sockets
pub mod Heartbeat
pub mod Rows
pub mod Frames
pub mod Stream
pub mod Runs
pub mod Cli
pub mod Weather
pub mod Pmus
mod Tests
