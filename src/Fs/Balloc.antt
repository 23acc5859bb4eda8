-- ===== src/Fs/Balloc.antt =====
-- What balloc of kernel/fs.c finds and takes.
mod Tests
use operationg_systems.Prelude.{
  ℕ, zero, suc, ◌+◌, ◌*◌, ◌-◌, ◌/◌, ◌%◌, ◌^◌, ◌≡◌, ◌≢◌, ◌≤◌, ◌<◌, ◌⊎◌, inl, inr, refl, ap, ◌∙◌, sym,
  subst, arith, Bool, true, false, ◌&&◌, ◌==◌, ==_iff, ==_ne, ltb, if◌then◌else◌, Option, none,
  some, Outcome, ok, panic, Bool-cases,
}
use operationg_systems.Fs.Bitmap.{
  Blocks, Superblock, bpb, bblock, bblock_int, bit_of, with_bit, without_bit, set_data, bit_at,
  mark, unmark, bzero, scan_bits, or_else, scan_blocks, take_block, balloc, bfree,
}
use operationg_systems.Fs.Blocks.{used, used-mark, bblock-int}

-- What the loops of balloc find from block x on: the first block that is free, or that there is none below
-- the bound.
abbrev pub Finds : Superblock → Blocks → ℕ → ℕ → Option (ℕ × ℕ) → Type 0
Finds sb d x bound none = (y : ℕ) → x ≤ y → y < bound → y < sb.size → used sb d y ≢ 0
Finds sb d x bound (some (b, bi)) =
    (b % 8192 ≡ 0)
    × (bi < 8192)
    × (b + bi < sb.size)
    × (used sb d (b + bi) ≡ 0)
    × ((y : ℕ) → x ≤ y → y < b + bi → used sb d y ≢ 0)

used-bit_at :
    (sb : Superblock) (d : Blocks) (b bi : ℕ)
    → b % 8192 ≡ 0
    → bi < 8192
    → b < 2 ^ 31
    → used sb d (b + bi) ≡ bit_at d (bblock_int b sb) bi
used-bit_at sb d b bi start low small =
    ap (λ i. bit_at d (bblock (b + bi) sb) i) {x = (b + bi) % 8192} {y = bi} (omega arith)
    ∙ ap (λ n. bit_at d n bi) (sym (bblock-int sb b bi start low small))

-- A block from x on is x, or is behind it.
from :
    (sb : Superblock) (d : Blocks) (x y : ℕ)
    → x ≤ y
    → used sb d x ≢ 0
    → (suc x ≤ y → used sb d y ≢ 0)
    → used sb d y ≢ 0
from sb d x y above here further = elim (Bool-cases (x == y)) [
  | inl e ↦ subst (λ n. used sb d n ≢ 0) ((==_iff x y).0 e) here
  | inr other ↦ further (ground (arith, other))
]

scan_bits-Finds :
    (fuel : ℕ) (sb : Superblock) (d : Blocks) (b bi : ℕ)
    → b % 8192 ≡ 0
    → b + 8192 ≤ 2 ^ 31
    → fuel + bi ≡ 8192
    → Finds sb d (b + bi) (b + 8192) (scan_bits fuel sb d b bi)
unfolding scan_bits
scan_bits-Finds zero sb d b bi start small all = λ y above below. absurd (omega arith)
scan_bits-Finds (suc fuel) sb d b bi start small all =
    let whole : (b + bi) % 2 ^ 32 ≡ b + bi = omega (arith, small, all) in
    let same = used-bit_at sb d b bi start (omega arith) (omega (arith, small)) in
    rw whole elim (Bool-cases (ltb bi 8192 && ltb (b + bi) sb.size)) [
      | inr outside ↦ rw outside (λ y above below inside. absurd (ground (arith, outside)))
      | inl inside ↦ elim (Bool-cases (bit_at d (bblock_int b sb) bi == 0)) [
        | inl free ↦
            rw (inside, free)
              (
                start,
                omega arith,
                ground (arith, inside),
                same ∙ (==_iff (bit_at d (bblock_int b sb) bi) 0).0 free,
                λ y above below. absurd (omega arith),
              )
        | inr taken ↦
            rw (inside, taken)
              (later (scan_bits fuel sb d b (bi + 1)) (ground (arith, taken, same))
                (scan_bits-Finds fuel sb d b (bi + 1) start small (omega arith)))
      ]
    ]
  where
    later :
        (found : Option (ℕ × ℕ))
        → used sb d (b + bi) ≢ 0
        → Finds sb d (b + (bi + 1)) (b + 8192) found
        → Finds sb d (b + bi) (b + 8192) found
    later none here rest = λ y above below inside.
        from sb d (b + bi) y above here (λ further. rest y (omega arith) below inside)
    later (some (c, ci)) here rest = (
      rest.0,
      rest.1,
      rest.2,
      rest.3,
      λ y above below. from sb d (b + bi) y above here (λ further. rest.4 y (omega arith) below),
    )

scan_blocks-Finds :
    (fuel : ℕ) (sb : Superblock) (d : Blocks) (b : ℕ)
    → sb.size + 8192 ≤ 2 ^ 31
    → b % 8192 ≡ 0
    → sb.size ≤ b + fuel
    → Finds sb d b sb.size (scan_blocks fuel sb d b)
unfolding scan_blocks
scan_blocks-Finds zero sb d b small start all = λ y above below inside. absurd (omega arith)
scan_blocks-Finds (suc fuel) sb d b small start all =
    round (scan_bits 8192 sb d b 0) (scan_blocks fuel sb d ((b + 8192) % 2 ^ 32))
      (λ inside. scan_bits-Finds 8192 sb d b 0 start (omega (arith, small, inside)) refl)
      (λ inside.
        let whole : b + 8192 ≡ (b + 8192) % 2 ^ 32 = omega (arith, small, inside) in
        subst (λ x. Finds sb d (b + 8192) sb.size (scan_blocks fuel sb d x)) whole
          (scan_blocks-Finds fuel sb d (b + 8192) small (omega arith) (omega arith)))
  where
    joined :
        (one two : Option (ℕ × ℕ))
        → Finds sb d (b + 0) (b + 8192) one
        → Finds sb d (b + 8192) sb.size two
        → Finds sb d b sb.size (or_else one two)
    joined none none f g = λ y above below inside. elim (Bool-cases (ltb y (b + 8192))) [
      | inl near ↦ f y (omega arith) (ground (arith, near)) inside
      | inr far ↦ g y (ground (arith, far)) below inside
    ]
    joined none (some (c, ci)) f g = (
      g.0,
      g.1,
      g.2,
      g.3,
      λ y above below. elim (Bool-cases (ltb y (b + 8192))) [
        | inl near ↦ f y (omega arith) (ground (arith, near)) (omega (arith, g.2))
        | inr far ↦ g.4 y (ground (arith, far)) below
      ],
    )
    joined (some (c, ci)) two f g = (f.0, f.1, f.2, f.3, λ y above below. f.4 y (omega arith) below)

    round :
        (one two : Option (ℕ × ℕ))
        → (b < sb.size → Finds sb d (b + 0) (b + 8192) one)
        → (b < sb.size → Finds sb d (b + 8192) sb.size two)
        → Finds sb d b sb.size (if ltb b sb.size then or_else one two else none)
    round one two f g = elim (Bool-cases (ltb b sb.size)) [
      | inr outside ↦ rw outside (λ y above below inside. absurd (ground (arith, outside)))
      | inl inside ↦
          let low : b < sb.size = ground (arith, inside) in
          rw inside (joined one two (f low) (g low))
    ]

used-bzero :
    (sb : Superblock) (d : Blocks) (n y : ℕ) → bblock y sb ≢ n → used sb (bzero d n) y ≡ used sb d y
unfolding bit_at bzero
used-bzero sb d n y other = rw (==_ne (bblock y sb) n other) refl

-- The bitmap has its own blocks in use.
abbrev pub BitmapInUse : Superblock → Blocks → Type 0
BitmapInUse sb d = (y : ℕ) → y < sb.size → used sb d (bblock y sb) ≢ 0

-- What balloc comes back with, r, on the disk d.
abbrev pub Allocates : Superblock → Blocks → ℕ × Blocks → Type 0
Allocates sb d r =
    (((y : ℕ) → y < sb.size → used sb d y ≢ 0) × (r ≡ (0, d)))
    ⊎ ((b : ℕ) × (d' : Blocks) × (r ≡ (b, d'))
        × (b < sb.size)
        × (used sb d b ≡ 0)
        × ((y : ℕ) → y < b → used sb d y ≢ 0)
        × ((y : ℕ) → y < sb.size → used sb d' y ≡ (if y == b then 1 else used sb d y))
        × ((i : ℕ) → i < 1024 → d' b i ≡ 0)
        × ((n i : ℕ) → n ≢ b → n ≢ bblock b sb → d' n i ≡ d n i))

-- On a disk whose bitmap has its own blocks in use, and which has no more than 2^31 - 8192 blocks, so that an int
-- counts them, balloc takes the first block that is free: it is below the size, its bit is set and no other bit of
-- the disk is changed, its bytes are 0, and the other blocks outside the bitmap are as before. Where every block is
-- in use it returns 0 and changes nothing.
pub balloc_lem :
    (sb : Superblock) (d : Blocks)
    → sb.size + 8192 ≤ 2 ^ 31
    → BitmapInUse sb d
    → Allocates sb d (balloc sb d)
unfolding balloc mark bzero
balloc_lem sb d small own =
    found (scan_blocks sb.size sb d 0) (scan_blocks-Finds sb.size sb d 0 small refl (omega arith))
  where
    found : (o : Option (ℕ × ℕ)) → Finds sb d 0 sb.size o → Allocates sb d (take_block sb d o)
    found none f = inl (λ y below. f y (omega arith) below below, refl)
    found (some (b, bi)) f =
        let whole : (b + bi) % 2 ^ 32 ≡ b + bi = omega (arith, small, f.2) in
        let block : bblock_int b sb ≡ bblock (b + bi) sb =
          bblock-int sb b bi f.0 f.1 (omega (arith, small, f.2)) in
        let n = bblock_int b sb in
        inr (
          b + bi,
          bzero (mark d n bi) (b + bi),
          ap (λ x. (x, bzero (mark d n bi) x)) whole,
          f.2,
          f.3,
          λ y below. f.4 y (omega arith) below,
          λ y inside.
              used-bzero sb (mark d n bi) (b + bi) y (λ e. own y inside (ap (used sb d) e ∙ f.3))
              ∙ used-mark sb d b bi y f.0 f.1 (omega (arith, small, f.2))
                  (omega (arith, small, inside)),
          λ i low. ground (arith, low),
          λ x i other outside.
              rw (==_ne x (b + bi) other, ==_ne x n (λ e. outside (e ∙ block))) refl,
        )
