-- ===== src/GroupE2ee.antt =====
-- internal/server/group_e2ee.go
pub mod Packages
pub mod States
pub mod Messages
pub mod KeyPackages
pub mod Owners
