-- ===== src/Api.antt =====
-- apps/api: the store of the runs, and the requests and processes that change it.
pub mod Store
pub mod Runs
pub mod Examples
