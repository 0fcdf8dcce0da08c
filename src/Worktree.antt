-- ===== src/Worktree.antt =====
-- internal/host/worktreelock.go and internal/host/worktree.go: the locks of linked worktrees.
pub mod Fields
pub mod Owners
pub mod Lock
pub mod Each
pub mod Foreign
pub mod Refine
pub mod Sequence
pub mod Restore
pub mod Race
pub mod Mutex
pub mod Waiting
pub mod Holder
pub mod Hidden
pub mod Porcelain
pub mod Tests
