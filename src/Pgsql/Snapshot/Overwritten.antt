-- ===== src/Pgsql/Snapshot/Overwritten.antt =====
-- A snapshot in the tenant store of core/src/storage/rocks/tenant.rs.
use nendi.Shared.Lsn.{Lsn}
