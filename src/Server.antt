-- ===== src/Server.antt =====
-- What the servers of servers/ share: the words in a message, the memory of the caller that a
-- pointer argument names, and the circular byte buffers of pipes, terminals and sockets.
pub mod Wire
pub mod Memory
pub mod Ring
