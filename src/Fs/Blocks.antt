-- ===== src/Fs/Blocks.antt =====
-- balloc and bfree of kernel/fs.c against the set of blocks in use.
use operationg_systems.Prelude.{
  ℕ, zero, suc, ◌+◌, ◌*◌, ◌/◌, ◌%◌, ◌^◌, ltb, true, ◌≡◌, ◌≢◌, ◌<◌, ◌⊎◌, inl, inr, refl, ap, sym,
  ◌∙◌, arith, ◌==◌, ==_iff, ==_ne, if◌then◌else◌, ok, panic, Bool-cases,
}
use operationg_systems.Fs.Bitmap.{
  Blocks, Superblock, bblock, bblock_int, bit_of, with_bit, without_bit, set_data, bit_at, mark,
  unmark, bfree,
}

-- 1 for a block that the bitmap has in use, 0 for a free one.
abbrev pub used : Superblock → Blocks → ℕ → ℕ
used sb d b = bit_at d (bblock b sb) (b % 8192)

bit_of-with_bit : (x j k : ℕ) → bit_of (with_bit x j) k ≡ (if j == k then 1 else bit_of x k)
unfolding bit_of with_bit
bit_of-with_bit x zero zero = ground arith
bit_of-with_bit x zero (suc k) =
    ground (arith, ap (λ y. bit_of y k) {x = (x / 2 * 2 + 1) / 2} {y = x / 2} (omega arith))
bit_of-with_bit x (suc j) zero = ground arith
bit_of-with_bit x (suc j) (suc k) =
    ap (λ y. bit_of y k) {x = (with_bit (x / 2) j * 2 + x % 2) / 2} {y = with_bit (x / 2) j}
      (omega arith)
    ∙ ground (arith, bit_of-with_bit (x / 2) j k)

bit_of-without_bit : (x j k : ℕ) → bit_of (without_bit x j) k ≡ (if j == k then 0 else bit_of x k)
unfolding bit_of without_bit
bit_of-without_bit x zero zero = ground arith
bit_of-without_bit x zero (suc k) =
    ground (arith, ap (λ y. bit_of y k) {x = x / 2 * 2 / 2} {y = x / 2} (omega arith))
bit_of-without_bit x (suc j) zero = ground arith
bit_of-without_bit x (suc j) (suc k) =
    ap (λ y. bit_of y k) {x = (without_bit (x / 2) j * 2 + x % 2) / 2} {y = without_bit (x / 2) j}
      (omega arith)
    ∙ ground (arith, bit_of-without_bit (x / 2) j k)

-- A bit that is written is written alone.
bit_at-set_data :
    (sb : Superblock) (d : Blocks) (n bi x y v w : ℕ)
    → x < 2 ^ 32
    → y < 2 ^ 32
    → n ≡ bblock x sb
    → bi ≡ x % 8192
    → ((k : ℕ) → bit_of w k ≡ (if bi % 8 == k then v else bit_of (d n (bi / 8)) k))
    → used sb (set_data d n (bi / 8) w) y ≡ (if y == x then v else used sb d y)
unfolding bit_at
bit_at-set_data sb d n bi x y v w small small' page low set = elim (Bool-cases (bblock y sb == n)) [
  | inr other ↦
      let ne : y ≢ x = λ same. ground (arith, other, page, ap (λ b. bblock b sb) same) in
      rw (other, ==_ne y x ne) refl
  | inl block ↦
      let same_page : y / 8192 ≡ x / 8192 =
        omega (arith, (==_iff (bblock y sb) n).0 block, page, small, small') in
      elim (Bool-cases (y % 8192 / 8 == bi / 8)) [
        | inr other ↦
            let ne : y ≢ x = λ same. ground (arith, other, low, same) in
            rw (block, other, ==_ne y x ne) refl
        | inl byte ↦
            let e : d (bblock y sb) (y % 8192 / 8) ≡ d n (bi / 8) =
              ap (λ b. d b (y % 8192 / 8)) ((==_iff (bblock y sb) n).0 block)
              ∙ ap (d n) ((==_iff (y % 8192 / 8) (bi / 8)).0 byte) in
            let k = y % 8192 % 8 in
            rw (block, byte)
              (elim (Bool-cases (bi % 8 == k)) [
                | inl bit ↦
                    let same : y ≡ x = omega (
                      arith,
                      same_page,
                      low,
                      (==_iff (y % 8192 / 8) (bi / 8)).0 byte,
                      (==_iff (bi % 8) k).0 bit,
                    ) in
                    rw ((==_iff y x).1 same) (set k ∙ rw bit refl)
                | inr other ↦
                    let ne : y ≢ x = λ same. ground (arith, other, low, same) in
                    rw (==_ne y x ne) (set k ∙ rw other (sym (ap (λ b. bit_of b k) e)))
              ])
      ]
]

pub bblock-int :
    (sb : Superblock) (b bi : ℕ)
    → b % 8192 ≡ 0
    → bi < 8192
    → b < 2 ^ 31
    → bblock_int b sb ≡ bblock (b + bi) sb
bblock-int sb b bi start low small =
    let test : ltb b (2 ^ 31) ≡ true = ground (arith, small) in
    rw test (ap (λ q. (q + sb.bmapstart) % 2 ^ 32) (omega arith))

pub used-mark :
    (sb : Superblock) (d : Blocks) (b bi y : ℕ)
    → b % 8192 ≡ 0
    → bi < 8192
    → b + bi < 2 ^ 31
    → y < 2 ^ 32
    → used sb (mark d (bblock_int b sb) bi) y ≡ (if y == b + bi then 1 else used sb d y)
unfolding mark
used-mark sb d b bi y start low small small' =
    let n = bblock_int b sb in
    bit_at-set_data sb d n bi (b + bi) y 1 (with_bit (d n (bi / 8)) (bi % 8)) (omega arith) small'
      (bblock-int sb b bi start low (omega arith)) (omega arith)
      (bit_of-with_bit (d n (bi / 8)) (bi % 8))

used-unmark :
    (sb : Superblock) (d : Blocks) (b y : ℕ)
    → b < 2 ^ 32
    → y < 2 ^ 32
    → used sb (unmark d (bblock b sb) (b % 8192)) y ≡ (if y == b then 0 else used sb d y)
unfolding unmark
used-unmark sb d b y small small' =
    let bi = b % 8192 in
    let n = bblock b sb in
    bit_at-set_data sb d n bi b y 0 (without_bit (d n (bi / 8)) (bi % 8)) small small' refl refl
      (bit_of-without_bit (d n (bi / 8)) (bi % 8))

unmark-other : (d : Blocks) (n' bi n i : ℕ) → n ≢ n' → unmark d n' bi n i ≡ d n i
unfolding unmark
unmark-other d n' bi n i other = rw (==_ne n n' other) refl

-- bfree stops the kernel on a block that is free, and else frees that block and no other, and writes to no
-- block but those of the bitmap.
bfree_lem :
    (sb : Superblock) (d : Blocks) (b : ℕ)
    → b < 2 ^ 32
    → ((used sb d b ≡ 0) × (bfree sb d b ≡ panic))
      ⊎ ((used sb d b ≢ 0)
          × ((d' : Blocks) × (bfree sb d b ≡ ok d')
              × ((y : ℕ) → y < 2 ^ 32 → used sb d' y ≡ (if y == b then 0 else used sb d y))
              × ((n i : ℕ) → n ≢ bblock b sb → d' n i ≡ d n i)))
unfolding bfree
bfree_lem sb d b small = elim (Bool-cases (bit_at d (bblock b sb) (b % 8192) == 0)) [
  | inl free ↦ inl ((==_iff (bit_at d (bblock b sb) (b % 8192)) 0).0 free, rw free refl)
  | inr taken ↦ inr (
    ground (arith, taken),
    (
      unmark d (bblock b sb) (b % 8192),
      rw taken refl,
      λ y low. used-unmark sb d b y small low,
      λ n i other. unmark-other d (bblock b sb) (b % 8192) n i other,
    ),
  )
]
