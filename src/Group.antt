-- ===== src/Group.antt =====
-- internal/server/group.go
pub mod Reads
pub mod Membership
pub mod Updates
pub mod Send
pub mod Permissions
pub mod Patches
pub mod Removal
pub mod Joining
pub mod Leaving
pub mod Rebinding
