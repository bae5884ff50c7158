-- ===== src/ParanoidPirate.antt =====
-- The Paranoid Pirate pattern (robust-reliable-queuing): its worker list, its queue, its worker.
pub mod Workers
pub mod Queue
pub mod Worker
pub mod Exchange
