-- ===== src/Tests.antt =====
-- Concrete runs and instances of the theorems.
mod Cursors
pub mod Toy
mod Wire
mod Logs
mod Transport
mod Handshake
mod Text
mod Session
pub mod Connect
mod Rpc
mod Features
mod Conversation
mod Confined
mod Life
mod Stepwise
