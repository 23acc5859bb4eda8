-- ===== src/Proc/Tests.antt =====
-- Runs of the process calls on a machine that counts free pages, and on small tables.
mod Toy
mod Life
mod Clock
mod Ends
