-- ===== src/Tests.antt =====
-- The theorems at concrete inputs, and runs of the code on them.
mod Specs
mod Clocks
mod Remarks
mod Echoing
mod Slots
pub mod Durable
mod Ledgers
mod Sharing
pub mod Inbox
mod Asking
mod Binding
pub mod Living
pub mod Histories
pub mod Ticking
mod Serving
