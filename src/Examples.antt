-- ===== src/Examples.antt =====
-- Concrete runs: instances of the parameters, and the theorems applied to them.
mod Values
mod Wire
mod Sessions
mod Requests
mod Chats
mod Daos
mod Logins
mod Pools
mod Status
mod Gate
mod Locks
mod Histories
mod Accounts
mod Clients
