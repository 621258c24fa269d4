-- ===== src/Gate.antt =====
-- The GateServer (server/services/GateServer/).
pub mod Url
pub mod Query
pub mod Protocol
pub mod Outside
pub mod Dao
pub mod Accounts
pub mod Routes
pub mod Store
pub mod Table
