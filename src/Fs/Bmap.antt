-- ===== src/Fs/Bmap.antt =====
-- bmap of kernel/fs.c. An inode is the array of its addrs; the words of an indirect block are little endian.
pub mod Laws
mod Tests
use operationg_systems.Prelude.{
  ℕ, ◌+◌, ◌*◌, ◌-◌, ◌/◌, ◌%◌, List, ◌==◌, ltb, if◌then◌else◌, get_or, set, Outcome, ok, panic,
}
use operationg_systems.Fs.Bitmap.{Blocks, Superblock, set_data, balloc}

abbrev pub ndirect : ℕ
ndirect = 12

-- BSIZE / sizeof(uint)
abbrev pub nindirect : ℕ
nindirect = 256

-- a[i], for the uints a of block n
unfoldable pub get_word : Blocks → ℕ → ℕ → ℕ
get_word d n i =
    d n (4 * i) + 256 * d n (4 * i + 1) + 65536 * d n (4 * i + 2) + 16777216 * d n (4 * i + 3)

unfoldable pub set_word : Blocks → ℕ → ℕ → ℕ → Blocks
set_word d n i v =
    set_data
      (set_data (set_data (set_data d n (4 * i) (v % 256)) n (4 * i + 1) (v / 256 % 256)) n
        (4 * i + 2) (v / 65536 % 256))
      n (4 * i + 3) (v / 16777216 % 256)

-- What balloc returned goes to addrs[i], but for 0.
unfoldable pub put_addr : List ℕ → ℕ → ℕ × Blocks → ℕ × List ℕ × Blocks
put_addr addrs i (addr, d) = if addr == 0 then (0, addrs, d) else (addr, set addrs i addr, d)

-- addrs[i], with a block that is allocated if there is none; 0 if there is no space.
unfoldable pub addr_of : Superblock → List ℕ → ℕ → Blocks → ℕ × List ℕ × Blocks
unfolding put_addr
addr_of sb addrs i d =
    let addr = get_or addrs i 0 in
    if addr == 0 then put_addr addrs i (balloc sb d) else (addr, addrs, d)

-- The same for word bn of the indirect block.
unfoldable pub put_entry : List ℕ → ℕ → ℕ → ℕ × Blocks → ℕ × List ℕ × Blocks
unfolding set_word
put_entry addrs n bn (addr, d) =
    if addr == 0 then (0, addrs, d) else (addr, addrs, set_word d n bn addr)

unfoldable pub entry_of : Superblock → ℕ → ℕ × List ℕ × Blocks → ℕ × List ℕ × Blocks
unfolding get_word put_entry
entry_of sb bn (n, addrs, d) =
    let addr = get_word d n bn in
    if n == 0
    then (0, addrs, d)
    else if addr == 0
    then put_entry addrs n bn (balloc sb d)
    else (addr, addrs, d)

-- The address, 0 if there is no space, with the inode and the disk.
unfoldable pub bmap : Superblock → List ℕ → ℕ → Blocks → Outcome (ℕ × List ℕ × Blocks)
unfolding addr_of entry_of
bmap sb addrs bn d =
    if ltb bn ndirect
    then ok (addr_of sb addrs bn d)
    else if ltb (bn - ndirect) nindirect
    then ok (entry_of sb (bn - ndirect) (addr_of sb addrs ndirect d))
    else panic
