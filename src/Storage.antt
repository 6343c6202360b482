-- ===== src/Storage.antt =====
-- src/storage: the MySQL client and the repositories. The database itself is a parameter.
pub mod Statement
pub mod Mysql
pub mod Players
pub mod Battles
pub mod Redis
