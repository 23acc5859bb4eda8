-- ===== src/Proc.antt =====
-- kernel/proc.c and kernel/proc.h of Assignment1_2, with the process calls of kernel/sysproc.c.
pub mod Types
pub mod Machine
pub mod Table
pub mod Alloc
pub mod Fork
pub mod Exit
pub mod Wait
pub mod Sys
mod Tests
