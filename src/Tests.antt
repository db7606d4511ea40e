-- ===== src/Tests.antt =====
-- Concrete runs of the queue, its parts, the pool and the futures.
mod World
mod Runs
mod Threads
mod Parts
mod Callers
mod Delivery
mod Blocking
mod Dropping
mod Draining
mod Serving
mod Fencing
mod Borrowing
mod Winding
mod Handshake
