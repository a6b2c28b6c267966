-- ===== src/Queue.antt =====
-- common/src/queue.rs: the single-producer single-consumer byte ring in host memory.
pub mod Capacity
pub mod Memory
pub mod Ring
pub mod Producer
pub mod Consumer
pub mod Fifo
pub mod Safety
mod Examples
