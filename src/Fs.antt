-- ===== src/Fs.antt =====
-- kernel/fs.c of Assignment1_2: the allocation of blocks, and the upper layers, which are paths and the
-- directories that they lead through.
pub mod Path
pub mod Elements
pub mod Resolve
pub mod Directory
pub mod Link
pub mod Bitmap
pub mod Blocks
pub mod Balloc
pub mod Bmap
mod Tests
