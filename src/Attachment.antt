-- ===== src/Attachment.antt =====
-- internal/server/attachment.go
pub mod Slots
pub mod Tickets
pub mod Access
pub mod DataPlane
pub mod Grants
pub mod Newest
