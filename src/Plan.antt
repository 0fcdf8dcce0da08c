-- ===== src/Plan.antt =====
-- internal/plan: the ordered host mutations and the intended container run.
pub mod Step
pub mod Facts
pub mod Mounts
pub mod Name
pub mod Monad
pub mod Account
pub mod Disk
pub mod Skills
pub mod Separate
pub mod SharedMounts
pub mod Command
pub mod Args
pub mod Questions
pub mod Build
pub mod Stable
pub mod Replay
pub mod Tests
pub mod Locks
pub mod QuietSkills
pub mod OneLock
