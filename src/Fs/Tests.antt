-- ===== src/Fs/Tests.antt =====
-- The directory 1 of a disk, which holds the file a, and the path /1/a.
use operationg_systems.Prelude.{
  ℕ, ◌≡◌, ◌≢◌, ◌⊎◌, refl, arith, List, [], ◌∷◌, true, false, ◌==◌, some, ok, replicate,
  if◌then◌else◌, Bool-cases, inl, inr,
}
use operationg_systems.Str.Laws.{IsText}
use operationg_systems.Fs.Path.{namex}
use operationg_systems.Fs.Elements.{elements, name_text, AllBytes, resolve, named}
use operationg_systems.Fs.Resolve.{namex-resolve}
use operationg_systems.Fs.Directory.{Dir, dirlookup, dirlink, inum_of, tree_of}
use operationg_systems.Fs.Link.{NamesAreBytes, tree_of-ReadsText, dirlookup-dirlink}

abbrev name_a : List ℕ
name_a = b'a' ∷ replicate 13 0

abbrev name_d : List ℕ
name_d = b'd' ∷ replicate 13 0

abbrev root : Dir
root = record {
  is_dir = true;
  entries = record { inum = 0; name = name_a } ∷ record { inum = 2; name = name_d } ∷ [];
}

abbrev inner : Dir
inner = record { is_dir = true; entries = record { inum = 3; name = name_a } ∷ [] }

abbrev file : Dir
file = record { is_dir = false; entries = [] }

abbrev disk : ℕ → Dir
disk ip = if ip == 1 then root else if ip == 2 then inner else file

bytes_a : AllBytes (name_text 14 name_a)
bytes_a = (omega arith, tt)

bytes_d : AllBytes (name_text 14 name_d)
bytes_d = (omega arith, tt)

disk_bytes : (ip : ℕ) → NamesAreBytes (disk ip).entries
disk_bytes ip = elim (Bool-cases (ip == 1)) [
  | inl first ↦ rw first (bytes_a, (bytes_d, tt))
  | inr other ↦ elim (Bool-cases (ip == 2)) [
    | inl second ↦ rw other (rw second (bytes_a, tt))
    | inr neither ↦ rw other (rw neither tt)
  ]
]

abbrev path : List ℕ
path = b'/' ∷ b'd' ∷ b'/' ∷ b'/' ∷ b'a' ∷ []

path-IsText : IsText path
path-IsText = (
  (omega arith, omega arith),
  (
    (omega arith, omega arith),
    ((omega arith, omega arith), ((omega arith, omega arith), ((omega arith, omega arith), tt))),
  ),
)

abbrev buffer : List ℕ
buffer = replicate 14 7

resolved : namex (tree_of disk) 1 2 path false buffer ≡ some (3, b'a' ∷ 0 ∷ replicate 12 7)
unfolding namex inum_of operationg_systems.Str.strncmp
resolved = refl

namex-resolve_example :
    named (tree_of disk) (namex (tree_of disk) 1 2 path false buffer)
    ≡ resolve (tree_of disk) false 1 (name_text 14 buffer) (elements path)
namex-resolve_example =
    namex-resolve (tree_of disk) (tree_of-ReadsText disk disk_bytes) 1 2 path false buffer
      path-IsText

abbrev name_b : List ℕ
name_b = b'b' ∷ 0 ∷ []

abbrev linked : Dir
linked = record {
  is_dir = true;
  entries =
      record { inum = 9; name = b'b' ∷ replicate 13 0 } ∷ record { inum = 2; name = name_d } ∷ [];
}

link : dirlink true root name_b 9 ≡ ok (linked, true)
unfolding dirlink operationg_systems.Str.strncmp operationg_systems.Str.strncpy
link = refl

dirlookup-dirlink_example :
    ((name_text 14 name_d ≡ name_text 14 name_b)
      × ((off : ℕ) × (dirlookup linked name_d ≡ ok (some (off, 9)))))
    ⊎ ((name_text 14 name_d ≢ name_text 14 name_b)
        × (dirlookup linked name_d ≡ dirlookup root name_d))
dirlookup-dirlink_example =
    dirlookup-dirlink true root linked name_b name_d 9 link (omega arith) (omega arith)
      (bytes_a, (bytes_d, tt)) (omega arith, tt) bytes_d
