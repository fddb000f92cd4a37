-- ===== src/Repository.antt =====
-- internal/repository: the queries on users, conversations, members and messages.
pub mod Users
pub mod Keys
pub mod Conversations
pub mod Members
pub mod Messages
