-- ===== src/Db.antt =====
-- utils/db: the data source of MySQL, the names in its statements, and the users of Fabric's network.
pub mod Dsn
pub mod Quoted
pub mod Seed
pub mod Seeded
