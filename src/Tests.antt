-- ===== src/Tests.antt =====
-- A small system on which the properties are tried out, and their examples.
pub mod Toy
pub mod ToyLaws
mod Values
mod Backups
mod Setups
mod Enabling
pub mod ToyPage
mod Pages
mod Sessions
