-- ===== src/Fs/Bmap/Laws.antt =====
-- bmap gives a block of a file one address.
use operationg_systems.Prelude.{
  ℕ, ◌-◌, ◌^◌, ◌≡◌, ◌≢◌, ◌<◌, inl, inr, refl, ap, ◌∙◌, sym, subst, arith, List, true, false, ◌==◌,
  ==_ne, ltb, get_or, get_or-set_self, length, Option, none, some, ok, panic, ok-injective,
  Bool-cases,
}
use operationg_systems.Fs.Bitmap.{Blocks, Superblock, scan_blocks, take_block, balloc}
use operationg_systems.Fs.Bmap.{get_word, set_word, put_addr, addr_of, put_entry, entry_of, bmap}

get_word-set_word : (d : Blocks) (n i v : ℕ) → v < 2 ^ 32 → get_word (set_word d n i v) n i ≡ v
unfolding get_word set_word
get_word-set_word d n i v h = ground arith

balloc_low : (sb : Superblock) (d : Blocks) → sb.size < 2 ^ 32 → (balloc sb d).0 < 2 ^ 32
unfolding balloc
balloc_low sb d h = low (scan_blocks sb.size sb d 0)
  where
    low : (o : Option (ℕ × ℕ)) → (take_block sb d o).0 < 2 ^ 32
    low none = omega arith
    low (some (b, bi)) = omega arith

put_addr_again :
    (sb : Superblock) (addrs : List ℕ) (i : ℕ) (p : ℕ × Blocks)
    → i < length addrs
    → (put_addr addrs i p).0 ≢ 0
    → (d' : Blocks)
    → addr_of sb (put_addr addrs i p).1 i d' ≡ ((put_addr addrs i p).0, (put_addr addrs i p).1, d')
unfolding put_addr addr_of
put_addr_again sb addrs i (addr, d) inside some_addr d' = elim (Bool-cases (addr == 0)) [
  | inl full ↦ absurd (ground (arith, full, some_addr))
  | inr fresh ↦ rw fresh (rw (get_or-set_self addrs i addr 0 inside) (rw fresh refl))
]

addr_of_again :
    (sb : Superblock) (addrs : List ℕ) (i : ℕ) (d : Blocks) (r : ℕ × List ℕ × Blocks)
    → i < length addrs
    → addr_of sb addrs i d ≡ r
    → r.0 ≢ 0
    → (d' : Blocks) → addr_of sb r.1 i d' ≡ (r.0, r.1, d')
unfolding addr_of
addr_of_again sb addrs i d r inside h some_addr d' = elim (Bool-cases (get_or addrs i 0 == 0)) [
  | inl empty ↦
      let e : put_addr addrs i (balloc sb d) ≡ r = sym (rw empty refl) ∙ h in
      subst (λ q. addr_of sb q.1 i d' ≡ (q.0, q.1, d')) e
        (put_addr_again sb addrs i (balloc sb d) inside (λ z. some_addr (ap (λ q. q.0) (sym e) ∙ z))
          d')
  | inr there ↦
      let e : (get_or addrs i 0, addrs, d) ≡ r = sym (rw there refl) ∙ h in
      subst (λ q. addr_of sb q.1 i d' ≡ (q.0, q.1, d')) e (rw there refl)
]

-- The entry that is found is returned, and one that is written is found.
entry_found :
    (sb : Superblock) (bn n v : ℕ) (addrs : List ℕ) (d : Blocks)
    → n ≢ 0
    → v ≢ 0
    → get_word d n bn ≡ v
    → entry_of sb bn (n, addrs, d) ≡ (v, addrs, d)
unfolding entry_of
entry_found sb bn n v addrs d block some_addr e =
    rw (==_ne n 0 block) (rw e (rw (==_ne v 0 some_addr) refl))

put_entry_again :
    (sb : Superblock) (bn n : ℕ) (addrs : List ℕ) (p : ℕ × Blocks)
    → n ≢ 0
    → p.0 < 2 ^ 32
    → (put_entry addrs n bn p).0 ≢ 0
    → ((put_entry addrs n bn p).1 ≡ addrs)
      × (entry_of sb bn (n, addrs, (put_entry addrs n bn p).2) ≡ put_entry addrs n bn p)
unfolding put_entry
put_entry_again sb bn n addrs (addr, d) block low some_addr = elim (Bool-cases (addr == 0)) [
  | inl full ↦ absurd (ground (arith, full, some_addr))
  | inr fresh ↦ rw fresh (
    refl,
    entry_found sb bn n addr addrs (set_word d n bn addr) block (ground (arith, fresh))
        (get_word-set_word d n bn addr low),
  )
]

entry_of_again :
    (sb : Superblock) (bn n : ℕ) (addrs : List ℕ) (d : Blocks) (r : ℕ × List ℕ × Blocks)
    → sb.size < 2 ^ 32
    → entry_of sb bn (n, addrs, d) ≡ r
    → r.0 ≢ 0
    → (n ≢ 0) × (r.1 ≡ addrs) × (entry_of sb bn (n, addrs, r.2) ≡ r)
unfolding entry_of
entry_of_again sb bn n addrs d r small h some_addr = elim (Bool-cases (n == 0)) [
  | inl none_left ↦ absurd (some_addr (ap (λ q. q.0) (sym h) ∙ rw none_left refl))
  | inr block ↦ elim (Bool-cases (get_word d n bn == 0)) [
    | inl empty ↦
        let e : put_entry addrs n bn (balloc sb d) ≡ r = sym (rw block (rw empty refl)) ∙ h in
        let again =
          subst (λ q. (q.1 ≡ addrs) × (entry_of sb bn (n, addrs, q.2) ≡ q)) e
            (put_entry_again sb bn n addrs (balloc sb d) (ground (arith, block))
              (balloc_low sb d small) (λ z. some_addr (ap (λ q. q.0) (sym e) ∙ z))) in
        (ground (arith, block), again.0, again.1)
    | inr there ↦
        let e : (get_word d n bn, addrs, d) ≡ r = sym (rw block (rw there refl)) ∙ h in
        let again =
          subst (λ q. (q.1 ≡ addrs) × (entry_of sb bn (n, addrs, q.2) ≡ q)) e
            (
              refl,
              entry_found sb bn n (get_word d n bn) addrs d (ground (arith, block))
                  (ground (arith, there)) refl,
            ) in
        (ground (arith, block), again.0, again.1)
  ]
]

bmap_direct :
    (sb : Superblock) (addrs : List ℕ) (bn : ℕ) (d : Blocks)
    → ltb bn 12 ≡ true
    → bmap sb addrs bn d ≡ ok (addr_of sb addrs bn d)
unfolding bmap
bmap_direct sb addrs bn d direct = rw direct refl

bmap_indirect :
    (sb : Superblock) (addrs : List ℕ) (bn : ℕ) (d : Blocks)
    → ltb bn 12 ≡ false
    → ltb (bn - 12) 256 ≡ true
    → bmap sb addrs bn d ≡ ok (entry_of sb (bn - 12) (addr_of sb addrs 12 d))
unfolding bmap
bmap_indirect sb addrs bn d direct inside = rw direct (rw inside refl)

bmap_outside :
    (sb : Superblock) (addrs : List ℕ) (bn : ℕ) (d : Blocks)
    → ltb bn 12 ≡ false
    → ltb (bn - 12) 256 ≡ false
    → bmap sb addrs bn d ≡ panic
unfolding bmap
bmap_outside sb addrs bn d direct inside = rw direct (rw inside refl)

-- On a disk of fewer than 2^32 blocks, where bmap has returned an address other than 0 for a block of a file, a
-- second call for that block returns the same address, and changes neither the inode nor the disk.
pub bmap_again :
    (sb : Superblock) (addrs addrs' : List ℕ) (bn addr : ℕ) (d d' : Blocks)
    → sb.size < 2 ^ 32
    → length addrs ≡ 13
    → bmap sb addrs bn d ≡ ok (addr, addrs', d')
    → addr ≢ 0
    → bmap sb addrs' bn d' ≡ ok (addr, addrs', d')
bmap_again sb addrs addrs' bn addr d d' small len h some_addr = elim (Bool-cases (ltb bn 12)) [
  | inl direct ↦
      let e = ok-injective (sym (bmap_direct sb addrs bn d direct) ∙ h) in
      bmap_direct sb addrs' bn d' direct
      ∙ ap (λ r. ok r)
          (addr_of_again sb addrs bn d (addr, addrs', d') (ground (arith, direct)) e some_addr d')
  | inr behind ↦ elim (Bool-cases (ltb (bn - 12) 256)) [
    | inr outside ↦ absurd (cc (sym (bmap_outside sb addrs bn d behind outside) ∙ h))
    | inl inside ↦
        let x = addr_of sb addrs 12 d in
        let e = ok-injective (sym (bmap_indirect sb addrs bn d behind inside) ∙ h) in
        let found = entry_of_again sb (bn - 12) x.0 x.1 x.2 (addr, addrs', d') small e some_addr in
        bmap_indirect sb addrs' bn d' behind inside
        ∙ ap (λ l. ok (entry_of sb (bn - 12) (addr_of sb l 12 d'))) found.1
        ∙ ap (λ q. ok (entry_of sb (bn - 12) q))
            (addr_of_again sb addrs 12 d x (omega arith) refl found.0 d')
        ∙ ap (λ r. ok r) found.2
  ]
]
