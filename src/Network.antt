-- ===== src/Network.antt =====
-- The network layer, src/Network.
pub mod Connection
pub mod NetworkMessage
pub mod OutputMessagePool
pub mod ServicePort
pub mod ServiceManager
pub mod Telnet
pub mod Notices
