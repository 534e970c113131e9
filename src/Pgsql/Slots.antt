-- ===== src/Pgsql/Slots.antt =====
-- services/pgsql/src/replication/slot.rs, slot/manager.rs and slot/policy.rs: the replication slot and
-- how far it lags.
pub mod Ensured
pub mod Lag
mod Tests
use nendi.Common.{
  ℕ, ◌*◌, ◌^◌, ◌/◌, Bool, true, false, Option, none, some, [], ◌∷◌, ◌++◌, Text, codes, ltb,
  if◌then◌else◌,
}
use nendi.Common.Float.{to_f64}
use nendi.Common.Effects.{Io, ◌>>=◌, ◌>>◌, pure, fail, or_fail, or_panic}
use nendi.Shared.Lsn.{Lsn, from_pg_str}
use nendi.Pgsql.Client
use nendi.Pgsql.Client.{
  PgServer, PgError, bad_lsn, slot_missing, Call, asked, slot_exists, wal_lag_bytes,
}

pub record SlotManager : Type 0 where
  pub slot_name : Text
  pub auto_create : Bool

unfoldable pub create_slot_sql : Text → Text
create_slot_sql name =
    codes "SELECT lsn FROM pg_create_logical_replication_slot('" ++ (name ++ codes "', 'pgoutput')")

unfoldable pub drop_slot_sql : Text → Text
drop_slot_sql name = codes "SELECT pg_drop_replication_slot('" ++ (name ++ codes "')")

pub data LagStatus : Type 0 where
  within : ℕ → LagStatus
  warning : ℕ → ℕ → LagStatus
  critical : ℕ → ℕ → LagStatus

-- The warning threshold, an `f64`, is a number of parts of 2 ^ 53.
pub record LagPolicy : Type 0 where
  pub hard_cap_bytes : ℕ
  pub warn_threshold : ℕ

-- 7656119366529843 parts of 2 ^ 53 are the `f64` that is nearest to 0.85.
unfoldable pub new : ℕ → LagPolicy
new hard_cap_bytes = record { hard_cap_bytes = hard_cap_bytes; warn_threshold = 7656119366529843 }

-- `lag_bytes as f64 > self.hard_cap_bytes as f64 * self.warn_threshold`, both sides in parts of
-- 2 ^ 53, which leaves the rounding of the product the same.
unfoldable pub above_warning : ℕ → LagPolicy → Bool
above_warning lag_bytes p =
    ltb (to_f64 (to_f64 p.hard_cap_bytes * p.warn_threshold)) (to_f64 lag_bytes * 2 ^ 53)

unfoldable pub evaluate : ℕ → LagPolicy → LagStatus
evaluate lag_bytes p =
    if ltb p.hard_cap_bytes lag_bytes
    then critical lag_bytes p.hard_cap_bytes
    else if above_warning lag_bytes p
    then warning lag_bytes p.hard_cap_bytes
    else within lag_bytes

unfoldable pub should_pause : ℕ → LagPolicy → Bool
should_pause lag_bytes p = ltb p.hard_cap_bytes lag_bytes

unfoldable pub can_resume : ℕ → LagPolicy → Bool
can_resume lag_bytes p = ltb lag_bytes (p.hard_cap_bytes / 2)

pub record SlotLifecycleManager : Type 0 where
  pub slot_name : Text
  pub publication_name : Text
  pub auto_create : Bool
  pub wal_lag_hard_cap_bytes : ℕ
  pub lag_check_interval_secs : ℕ

module _ (pg : PgServer) where
  -- What follows the answer whether the slot exists.
  unfoldable pub create_slot : SlotManager → Call pg (Option Lsn)
  create_slot m =
      if m.auto_create
      then (do
        row ← asked pg (pg.query_one (create_slot_sql m.slot_name) [])
        lsn_str ← or_panic (pg.try_get row 0)
        lsn ← or_fail (bad_lsn lsn_str) (from_pg_str lsn_str)
        pure (some lsn))
      else fail (slot_missing m.slot_name)

  unfoldable pub ensure_slot : SlotManager → Call pg (Option Lsn)
  ensure_slot m = do
    exists ← slot_exists pg m.slot_name
    if exists then pure none else create_slot m

  unfoldable pub drop_slot : SlotManager → Call pg (Unit {0})
  drop_slot m = do _ ← Client.execute pg (drop_slot_sql m.slot_name); pure tt

  -- A lag above the cap is only logged here.
  unfoldable pub init : SlotLifecycleManager → Call pg (Unit {0})
  init m = do
    _ ← ensure_slot (record { slot_name = m.slot_name; auto_create = m.auto_create })
    lag ← wal_lag_bytes pg m.slot_name
    pure tt

  unfoldable pub check_lag : SlotLifecycleManager → Call pg LagStatus
  check_lag m = do
    lag ← wal_lag_bytes pg m.slot_name
    pure (evaluate lag (new m.wal_lag_hard_cap_bytes))
