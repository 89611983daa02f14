-- ===== src/Queue.antt =====
-- runtime/queueing.py and the queue half of runtime/backends.py.
pub mod Models
pub mod Admission
pub mod Manager
pub mod Backend
