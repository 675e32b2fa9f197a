-- ===== src/Object.antt =====
-- The messages: src/object/*.cpp and the headers in include/object/.
pub mod Print
pub mod DataType
pub mod DataHeader
pub mod Ping
pub mod JavaSymbol
pub mod BinaryData
