-- ===== src/Chat.antt =====
-- The ChatServer (server/services/ChatServer/).
pub mod Protocol
pub mod Json
pub mod Messages
pub mod Data
pub mod Database
pub mod Dao
pub mod World
pub mod Logic
pub mod Login
pub mod Notify
pub mod Texts
pub mod Friends
pub mod Search
pub mod Threads
pub mod Callbacks
pub mod Reply
pub mod Process
pub mod Pool
pub mod Redis
pub mod Registry
pub mod Cleanup
pub mod Server
pub mod Steps
pub mod Session
pub mod Validation
