-- ===== src/Server/Jobs.antt =====
-- blastradius/server/jobs.py, with the events of blastradius/server/events.py: the rows of the
-- analyses, the slots and the flags of `JobManager`, and its functions. A transaction either commits
-- or leaves the rows as they were: what becomes of one is a `Fault`, an argument. So are the clock,
-- what the worker responds, and `persist_result`'s reading of a result.
pub mod Kinds
pub mod Steps
pub mod Run
pub mod Full
pub mod Stored
pub mod Life
pub mod Keys
pub mod Recover
pub mod Moves
pub mod Sound
pub mod Finishes
pub mod Ends
pub use Kinds.*
pub use Steps.*
pub use Run.*
