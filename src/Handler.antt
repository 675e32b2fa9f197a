-- ===== src/Handler.antt =====
-- src/handler/*.cpp: the communication handlers.
pub mod Os
pub mod Sequence
pub mod Message
pub mod Link
pub mod Slots
pub mod Datagrams
pub mod Fifo
pub mod MessageQueue
pub mod Sockets
pub mod DatagramSocket
pub mod StreamSocket
pub mod SharedMemory
pub mod SharedFile
pub mod DBus
