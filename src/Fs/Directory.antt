-- ===== src/Fs/Directory.antt =====
-- dirlookup and dirlink of kernel/fs.c. A directory is the list of its entries, which the code reads and
-- writes by readi and writei, 16 bytes each; entry i stands at offset 16 * i.
use operationg_systems.Prelude.{
  ℕ, ◌+◌, ◌*◌, ◌%◌, ◌^◌, List, [], ◌∷◌, Bool, true, false, ◌==◌, if◌then◌else◌, Option, none, some,
  Outcome, ok, panic, ◌>>=◌, replicate,
}
use operationg_systems.Str.{strncpy, strncmp}
use operationg_systems.Fs.Path.{Tree}

-- struct dirent
pub record Dirent : Type 0 where
  pub inum : ℕ
  pub name : List ℕ

-- A directory inode, or one of another type.
pub record Dir : Type 0 where
  pub is_dir : Bool
  pub entries : List Dirent

unfoldable pub namecmp : List ℕ → List ℕ → ℕ
namecmp s t = strncmp s t 14

-- The loop of dirlookup from entry i on: the offset and the inode number.
unfoldable pub lookup_from : ℕ → List Dirent → List ℕ → Option (ℕ × ℕ)
unfolding namecmp
lookup_from i [] name = none
lookup_from i (de ∷ des) name =
    let rest = lookup_from (i + 1) des name in
    if de.inum == 0
    then rest
    else if namecmp name de.name == 0
    then some (16 * i, de.inum)
    else rest

unfoldable pub dirlookup : Dir → List ℕ → Outcome (Option (ℕ × ℕ))
unfolding lookup_from
dirlookup dp name = if dp.is_dir then ok (lookup_from 0 dp.entries name) else panic

-- The second loop of dirlink and the writei behind it: the first entry that is free, or the end.
unfoldable pub place : List Dirent → Dirent → List Dirent
place [] new = new ∷ []
place (de ∷ des) new = let rest = place des new in if de.inum == 0 then new ∷ des else de ∷ rest

-- strncpy overwrites all of de.name; inum is a ushort.
abbrev pub new_entry : List ℕ → ℕ → Dirent
new_entry name inum = record { inum = inum % 2 ^ 16; name = strncpy (replicate 14 0) name 14 }

-- The directory, and true for 0; `writes` tells whether writei can write the entry.
unfoldable pub dirlink : Bool → Dir → List ℕ → ℕ → Outcome (Dir × Bool)
unfolding dirlookup place
dirlink writes dp name inum = do
  there ← dirlookup dp name
  elim there [
    | some r ↦ ok (dp, false)
    | none ↦
        if writes
        then ok (record dp { entries = place dp.entries (new_entry name inum) }, true)
        else ok (dp, false)
  ]

-- The inodes of a disk as namex sees them.
unfoldable pub found_inum : Option (ℕ × ℕ) → Option ℕ
found_inum none = none
found_inum (some r) = some r.1

unfoldable pub inum_of : Dir → List ℕ → Option ℕ
unfolding lookup_from found_inum
inum_of dp name = found_inum (lookup_from 0 dp.entries name)

abbrev pub tree_of : (ℕ → Dir) → Tree
tree_of dirs = record {
  Inode = ℕ;
  is_dir = λ ip. (dirs ip).is_dir;
  dirlookup = λ ip name. inum_of (dirs ip) name;
}
