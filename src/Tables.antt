-- ===== src/Tables.antt =====
-- The PostgreSQL rows that the services share (app/modules/*/models.py), as records, and a table as
-- the list of its rows. UUIDs are numbers, instants are microseconds since the epoch, `now` is an
-- argument of each call. Columns that no modelled code reads or writes are left out, and so is
-- row-level security: each query names its shop itself.
pub mod Access
pub mod Stock
pub mod Sales
pub mod Billing
