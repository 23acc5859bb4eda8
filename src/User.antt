-- ===== src/User.antt =====
-- The programs and the library under Assignment1_2/user.
pub mod Grep
pub mod Ulib
pub mod Number
pub mod Shell
pub mod Wc
