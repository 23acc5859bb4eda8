-- ===== src/Fs/Link.antt =====
-- dirlink and dirlookup of kernel/fs.c, one after the other.
use operationg_systems.Prelude.{
  ℕ, zero, suc, ◌+◌, ◌*◌, ◌%◌, ◌^◌, ◌≡◌, ◌≢◌, ◌≤◌, ◌<◌, ◌↔◌, ◌⊎◌, inl, inr, refl, ap, ◌∙◌, sym,
  List, [], ◌∷◌, Bool, true, false, ◌==◌, ==_iff, ==_ne, if◌then◌else◌, arith, Option, none, some,
  Outcome, ok, panic, ◌>>=◌, length, replicate, Bool-cases, subst, ok-injective,
}
use operationg_systems.Str.{strncpy, strncmp, zero_fill}
use operationg_systems.Fs.Elements.{name_text, AllBytes}
use operationg_systems.Fs.Resolve.{ReadsText}
use operationg_systems.Fs.Directory.{
  Dirent, Dir, namecmp, lookup_from, dirlookup, place, new_entry, dirlink, found_inum, inum_of,
  tree_of,
}

head-AllBytes : (d n : ℕ) (q : List ℕ) → AllBytes (name_text (suc n) (d ∷ q)) → d < 256
head-AllBytes d n q h = elim (Bool-cases (d == 0)) [
  | inl end ↦ ground (arith, end)
  | inr more ↦ (subst (λ b. AllBytes (if b then [] else d ∷ name_text n q)) more h).0
]

tail-AllBytes :
    (d n : ℕ) (q : List ℕ)
    → (d == 0) ≡ false
    → AllBytes (name_text (suc n) (d ∷ q))
    → AllBytes (name_text n q)
tail-AllBytes d n q more h = (subst (λ b. AllBytes (if b then [] else d ∷ name_text n q)) more h).1

-- strncmp compares the texts of two buffers.
strncmp-name_text :
    (p q : List ℕ) (n : ℕ)
    → AllBytes (name_text n p)
    → AllBytes (name_text n q)
    → (strncmp p q n ≡ 0) ↔ (name_text n p ≡ name_text n q)
unfolding strncmp
strncmp-name_text p q zero hp hq = ground arith
strncmp-name_text [] [] (suc n) hp hq = ground arith
strncmp-name_text [] (d ∷ q) (suc n) hp hq = ground (arith, head-AllBytes d n q hq)
strncmp-name_text (c ∷ p) [] (suc n) hp hq = ground arith
strncmp-name_text (c ∷ p) (d ∷ q) (suc n) hp hq = elim (Bool-cases (c == 0)) [
  | inl end ↦ ground (arith, end, head-AllBytes d n q hq)
  | inr more ↦ elim (Bool-cases (c == d)) [
    | inl same ↦ ground (
      arith,
      same,
      more,
      strncmp-name_text p q n (tail-AllBytes c n p more hp)
          (tail-AllBytes d n q (subst (λ x. (x == 0) ≡ false) ((==_iff c d).0 same) more) hq),
    )
    | inr other ↦ ground (arith, more, other, head-AllBytes c n p hp, head-AllBytes d n q hq)
  ]
]

-- The name that dirlink writes holds the text that it was given.
name_text-zero_fill : (s : List ℕ) (n : ℕ) → name_text n (zero_fill s n) ≡ []
unfolding zero_fill
name_text-zero_fill s zero = refl
name_text-zero_fill [] (suc n) = refl
name_text-zero_fill (d ∷ s) (suc n) = refl

name_text-strncpy :
    (s t : List ℕ) (n : ℕ) → n ≤ length s → name_text n (strncpy s t n) ≡ name_text n t
unfolding strncpy
name_text-strncpy s t zero h = refl
name_text-strncpy [] t (suc n) h = absurd (omega arith)
name_text-strncpy (d ∷ s) [] (suc n) h = refl
name_text-strncpy (d ∷ s) (c ∷ t) (suc n) h = ground (arith, name_text-strncpy s t n (omega arith))

-- The names of the entries are bytes.
abbrev pub NamesAreBytes : List Dirent → Type 0
NamesAreBytes [] = Unit {0}
NamesAreBytes (de ∷ des) = AllBytes (name_text 14 de.name) × NamesAreBytes des

namecmp-name_text :
    (p q : List ℕ)
    → AllBytes (name_text 14 p)
    → AllBytes (name_text 14 q)
    → ((namecmp p q == 0) ≡ true) ↔ (name_text 14 p ≡ name_text 14 q)
unfolding namecmp
namecmp-name_text p q hp hq = (
  λ e. (strncmp-name_text p q 14 hp hq).0 ((==_iff (strncmp p q 14) 0).0 e),
  λ e. (==_iff (strncmp p q 14) 0).1 ((strncmp-name_text p q 14 hp hq).1 e),
)

namecmp_congr :
    (p p' q : List ℕ)
    → AllBytes (name_text 14 p)
    → AllBytes (name_text 14 q)
    → name_text 14 p ≡ name_text 14 p'
    → (namecmp p q == 0) ≡ (namecmp p' q == 0)
namecmp_congr p p' q hp hq e =
    let left = namecmp-name_text p q hp hq in
    let right = namecmp-name_text p' q (subst AllBytes e hp) hq in
    elim (Bool-cases (namecmp p q == 0)) [
      | inl same ↦ same ∙ sym (right.1 (sym e ∙ left.0 same))
      | inr other ↦ elim (Bool-cases (namecmp p' q == 0)) [
        | inl same ↦ left.1 (e ∙ right.0 same) ∙ sym same
        | inr other' ↦ other ∙ sym other'
      ]
    ]

-- A lookup reads the text of the name alone.
lookup_from_congr :
    (i : ℕ) (des : List Dirent) (p p' : List ℕ)
    → NamesAreBytes des
    → AllBytes (name_text 14 p)
    → name_text 14 p ≡ name_text 14 p'
    → lookup_from i des p ≡ lookup_from i des p'
unfolding lookup_from
lookup_from_congr i [] p p' hd hp e = refl
lookup_from_congr i (de ∷ des) p p' hd hp e =
    rw (lookup_from_congr (i + 1) des p p' hd.1 hp e, namecmp_congr p p' de.name hp hd.0 e) refl

pub tree_of-ReadsText :
    (dirs : ℕ → Dir) → ((ip : ℕ) → NamesAreBytes (dirs ip).entries) → ReadsText (tree_of dirs)
unfolding inum_of
tree_of-ReadsText dirs h ip n n' hn e =
    ap found_inum (lookup_from_congr 0 (dirs ip).entries n n' (h ip) hn e)

-- A new entry with another text is passed by, and one with the text is found where there was none.
lookup_from-place_other :
    (i : ℕ) (des : List Dirent) (new : Dirent) (p : List ℕ)
    → (namecmp p new.name == 0) ≡ false
    → lookup_from i (place des new) p ≡ lookup_from i des p
unfolding lookup_from place
lookup_from-place_other i [] new p e = rw e (ground arith)
lookup_from-place_other i (de ∷ des) new p e = elim (Bool-cases (de.inum == 0)) [
  | inl free ↦ rw (free, e) (ground arith)
  | inr used ↦ ground (arith, used, lookup_from-place_other (i + 1) des new p e)
]

lookup_from-place_same :
    (i : ℕ) (des : List Dirent) (new : Dirent) (p : List ℕ)
    → (namecmp p new.name == 0) ≡ true
    → (new.inum == 0) ≡ false
    → lookup_from i des p ≡ none
    → (off : ℕ) × (lookup_from i (place des new) p ≡ some (off, new.inum))
unfolding lookup_from place
lookup_from-place_same i [] new p e used h = (16 * i, rw (used, e) refl)
lookup_from-place_same i (de ∷ des) new p e used h = elim (Bool-cases (de.inum == 0)) [
  | inl free ↦ (16 * i, rw free (rw used (rw e refl)))
  | inr taken ↦ elim (Bool-cases (namecmp p de.name == 0)) [
    | inl match ↦ absurd (ground (arith, taken, match, h))
    | inr other ↦
        let later =
          lookup_from-place_same (i + 1) des new p e used (ground (arith, taken, other, h)) in
        (later.0, ground (arith, taken, other, later.1))
  ]
]

-- A dirlink that returned 0 found no entry and wrote one.
dirlink_written :
    (writes : Bool) (dp dp' : Dir) (name : List ℕ) (inum : ℕ)
    → dirlink writes dp name inum ≡ ok (dp', true)
    → (dp.is_dir ≡ true)
      × (lookup_from 0 dp.entries name ≡ none)
      × (dp' ≡ record dp { entries = place dp.entries (new_entry name inum) })
unfolding dirlink dirlookup
dirlink_written writes dp dp' name inum h =
    written dp.is_dir (lookup_from 0 dp.entries name) writes h
  where
    linked : Dir
    linked = record dp { entries = place dp.entries (new_entry name inum) }

    answer : Bool → Option (ℕ × ℕ) → Outcome (Dir × Bool)
    answer w none = if w then ok (linked, true) else ok (dp, false)
    answer w (some r) = ok (dp, false)

    written :
        (directory : Bool) (found : Option (ℕ × ℕ)) (w : Bool)
        → ((if directory then ok found else panic) >>= answer w) ≡ ok (dp', true)
        → (directory ≡ true) × (found ≡ none) × (dp' ≡ linked)
    written true none true e = (refl, refl, sym (ap (λ r. r.0) (ok-injective e)))
    written true none false e = absurd (cc)
    written true (some r) w e = absurd (cc)
    written false found w e = absurd (cc)

-- After a dirlink of a name that returns 0, with an inode number other than 0 that fits a ushort, where the
-- names hold bytes: dirlookup of a name with the same text, within DIRSIZ bytes, finds that inode number, and
-- dirlookup of any other name returns what it returned before, the offset included.
pub dirlookup-dirlink :
    (writes : Bool) (dp dp' : Dir) (name other : List ℕ) (inum : ℕ)
    → dirlink writes dp name inum ≡ ok (dp', true)
    → 0 < inum
    → inum < 2 ^ 16
    → NamesAreBytes dp.entries
    → AllBytes (name_text 14 name)
    → AllBytes (name_text 14 other)
    → ((name_text 14 other ≡ name_text 14 name)
        × ((off : ℕ) × (dirlookup dp' other ≡ ok (some (off, inum)))))
      ⊎ ((name_text 14 other ≢ name_text 14 name) × (dirlookup dp' other ≡ dirlookup dp other))
unfolding dirlookup
dirlookup-dirlink writes dp dp' name other inum h pos fits hd hn ho =
    let r = dirlink_written writes dp dp' name inum h in
    let new = new_entry name inum in
    let text : name_text 14 new.name ≡ name_text 14 name =
      name_text-strncpy (replicate 14 0) name 14 (omega arith) in
    let test = namecmp-name_text other new.name ho (subst AllBytes (sym text) hn) in
    let number : inum % 2 ^ 16 ≡ inum = omega arith in
    elim (Bool-cases (namecmp other new.name == 0)) [
      | inl same ↦
          let equal = test.0 same ∙ text in
          let found =
            lookup_from-place_same 0 dp.entries new other same
              (==_ne (inum % 2 ^ 16) 0 (omega arith))
              (lookup_from_congr 0 dp.entries other name hd ho equal ∙ r.1) in
          inl (
            equal,
            (
              found.0,
              rw (r.2, r.0) (ap (λ o. ok o) (found.1 ∙ ap (λ n. some (found.0, n)) number)),
            ),
          )
      | inr differ ↦ inr (
        λ e. cc (differ, test.1 (e ∙ sym text)),
        rw (r.2, r.0) (ap (λ o. ok o) (lookup_from-place_other 0 dp.entries new other differ)),
      )
    ]
