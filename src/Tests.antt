-- ===== src/Tests.antt =====
-- The theorems at concrete inputs.
mod Redis
mod Postgres
mod Mysql
mod Dblog
mod MysqlRows
mod MysqlFile
mod MysqlLive
mod RedisLive
mod Mongo
mod Replication
