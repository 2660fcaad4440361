-- ===== src/Sql.antt =====
-- The SQL statements that write the database, one action for each, named for what it does. Reads
-- are functions of the database in the modules of the handlers. A statement fails by a broken
-- PRIMARY KEY or UNIQUE constraint and then changes nothing; failures of the disk are left out.
mod Groups
mod Objects
unfoldable pub use Groups.*
unfoldable pub use Objects.*
