-- ===== src/Tests.antt =====
-- The development run on concrete tables, requests and events.
pub mod Data
mod Bookings
mod Payments
mod Locks
mod Server
mod Turfs
mod Uploads
mod Answers
mod Offices
mod Coupons
mod Times
mod Accounts
