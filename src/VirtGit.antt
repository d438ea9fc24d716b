-- ===== src/VirtGit.antt =====
-- crates/virt-git: the content-addressed file system that agents edit.
pub mod Store
pub mod Tree
pub mod Diff
pub mod Workspace
mod Samples
mod Witnesses
