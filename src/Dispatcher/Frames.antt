-- ===== src/Dispatcher/Frames.antt =====
-- The requests of RequestDispatcher that leave passwords and tokens alone.
pub mod Views
pub mod Searches
pub mod Files
pub mod Transfers
pub mod Changes
