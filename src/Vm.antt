-- ===== src/Vm.antt =====
-- kernel/vm.c of Assignment1_2 on the memory of Kalloc: words of 64 bits, and the free list that runs through
-- them. A page table is the address of its page. A Bool result is true where the C function returns 0.
pub mod Pte
pub mod Walk
pub mod Tables
pub mod Mapped
pub mod Map
pub mod Size
pub mod Copy
pub mod Bytewise
mod Tests
