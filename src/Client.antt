-- ===== src/Client.antt =====
-- The desktop client (client/).
pub mod Tcp
pub mod History
pub mod ChatService
pub mod Users
pub mod SessionService
pub mod Events
