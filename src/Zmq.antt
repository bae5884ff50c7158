-- ===== src/Zmq.antt =====
-- Messages on a socket. The socket itself is libzmq's: what it delivers is an argument.
pub mod Frames
pub mod Deque
pub mod Copies
pub mod Version
