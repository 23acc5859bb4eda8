-- ===== src/Vm/Pte.antt =====
-- The page table entries of kernel/riscv.h, and the bytes of a word.
use operationg_systems.Prelude.{
  ℕ, zero, suc, ◌+◌, ◌-◌, ◌*◌, ◌/◌, ◌%◌, ◌^◌, Bool, true, false, ◌==◌, if◌then◌else◌, List, [], ◌∷◌,
}

abbrev pub maxva : ℕ
maxva = 2 ^ 38

-- PX(level, va): nine bits of the address.
abbrev pub px : ℕ → ℕ → ℕ
px level va = va / 2 ^ (12 + 9 * level) % 512

abbrev pub pte2pa : ℕ → ℕ
pte2pa pte = pte / 1024 * 4096 % 2 ^ 64

abbrev pub pa2pte : ℕ → ℕ
pa2pte pa = pa / 4096 * 1024

abbrev pub pte_flags : ℕ → ℕ
pte_flags pte = pte % 1024

-- pte & PTE_V, and pte & PTE_U
abbrev pub is_valid : ℕ → Bool
is_valid pte = pte % 2 == 1

abbrev pub is_user : ℕ → Bool
is_user pte = pte / 16 % 2 == 1

-- whether one of PTE_R, PTE_W and PTE_X is set
abbrev pub is_leaf : ℕ → Bool
is_leaf pte = if pte / 2 % 8 == 0 then false else true

-- PA2PTE(pa) | perm | PTE_V, for perm below 1024
abbrev pub make_pte : ℕ → ℕ → ℕ
make_pte pa perm = pa2pte pa + (if perm % 2 == 1 then perm else perm + 1)

abbrev pub pgrounddown : ℕ → ℕ
pgrounddown a = a / 4096 * 4096

abbrev pub pgroundup : ℕ → ℕ
pgroundup a = (a + 4095) % 2 ^ 64 / 4096 * 4096

-- Byte i of a word, and the word with that byte replaced.
unfoldable pub byte_of : ℕ → ℕ → ℕ
byte_of n zero = n % 256
byte_of n (suc i) = byte_of (n / 256) i

unfoldable pub with_byte : ℕ → ℕ → ℕ → ℕ
with_byte n zero v = n / 256 * 256 + v
with_byte n (suc i) v = with_byte (n / 256) i v * 256 + n % 256

abbrev pub get_byte : (ℕ → ℕ) → ℕ → ℕ
get_byte w a = byte_of (w (a - a % 8)) (a % 8)

abbrev pub set_byte : (ℕ → ℕ) → ℕ → ℕ → ℕ → ℕ
set_byte w a v b = if b == a - a % 8 then with_byte (w b) (a % 8) v else w b

-- memmove between kernel memory and a page that is mapped: n bytes from a on, and the list to a.
unfoldable pub get_bytes : (ℕ → ℕ) → ℕ → ℕ → List ℕ
get_bytes w a zero = []
get_bytes w a (suc n) = get_byte w a ∷ get_bytes w (a + 1) n

unfoldable pub set_bytes : (ℕ → ℕ) → ℕ → List ℕ → ℕ → ℕ
set_bytes w a [] = w
set_bytes w a (v ∷ vs) = set_bytes (set_byte w a v) (a + 1) vs
