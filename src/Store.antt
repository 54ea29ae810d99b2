-- ===== src/Store.antt =====
-- pkg/store: the query builder (query.go), the CRUD contract (store.go), its in-memory adapter
-- (memory.go), and what a database says of conditions.
pub mod Query
pub mod Contract
pub mod Memory
pub mod Meaning
pub mod Reference
