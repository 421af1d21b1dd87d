-- ===== src/Net.antt =====
-- clia/src/net and clia/clia/net: the byte buffer, the connections that use it, and the server.
pub mod Buffer
pub mod TcpConnection
pub mod TcpServer
pub mod InetAddress
pub mod Socket
pub mod Acceptor
