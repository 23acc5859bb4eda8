-- ===== src/Fs/Path.antt =====
-- skipelem and namex of kernel/fs.c. A path is the list of its bytes before the terminator; `name` is the
-- buffer of DIRSIZ bytes.
use operationg_systems.Prelude.{
  ℕ, zero, suc, ◌+◌, List, [], ◌∷◌, ◌++◌, Bool, false, not, ◌==◌, leb, if◌then◌else◌, Option, none,
  some, length, take, drop,
}

abbrev pub dirsiz : ℕ
dirsiz = 14

-- while(*path == '/') path++;
unfoldable pub skip_slashes : List ℕ → List ℕ
skip_slashes [] = []
skip_slashes (c ∷ path) = let rest = skip_slashes path in if c == b'/' then rest else c ∷ path

-- while(*path != '/' && *path != 0) path++; the bytes passed, and the path behind them.
unfoldable pub read_elem : List ℕ → List ℕ × List ℕ
read_elem [] = ([], [])
read_elem (c ∷ path) =
    let rest = read_elem path in if c == b'/' then ([], c ∷ path) else (c ∷ rest.0, rest.1)

-- The two memmoves: an element of DIRSIZ bytes or more gets no terminator.
unfoldable pub store_name : List ℕ → List ℕ → List ℕ
store_name elem name =
    if leb dirsiz (length elem) then take dirsiz elem else elem ++ 0 ∷ drop (length elem + 1) name

-- skipelem behind its first loop.
unfoldable pub skip_from : List ℕ → List ℕ → Option (List ℕ × List ℕ)
unfolding skip_slashes read_elem store_name
skip_from [] name = none
skip_from (c ∷ path) name =
    let r = read_elem (c ∷ path) in some (skip_slashes r.1, store_name r.0 name)

-- The path behind the element and the name, or none where there is no element.
unfoldable pub skipelem : List ℕ → List ℕ → Option (List ℕ × List ℕ)
unfolding skip_from
skipelem path name = skip_from (skip_slashes path) name

-- nameiparent && *path == '\0'
abbrev pub ends_here : Bool → List ℕ → Bool
ends_here parent [] = parent
ends_here parent (c ∷ path) = false

-- *path == '/'
abbrev pub starts_at_root : List ℕ → Bool
starts_at_root [] = false
starts_at_root (c ∷ path) = c == b'/'

-- What namex asks of the inodes: their type, and dirlookup.
pub record Tree : Type 1 where
  pub Inode : Type 0
  pub is_dir : Inode → Bool
  pub dirlookup : Inode → List ℕ → Option Inode

module _ (t : Tree) where
  open t use {Inode, is_dir, dirlookup}

  -- What follows a dirlookup: 0 if it found nothing.
  abbrev pub follow : Option Inode → (Inode → Option (Inode × List ℕ)) → Option (Inode × List ℕ)
  follow none next = none
  follow (some ip) next = next ip

  -- A round of namex's loop with what skipelem returned, and the rounds after it.
  abbrev pub namex_round :
      Bool
      → Inode
      → List ℕ
      → (Inode → List ℕ → List ℕ → Option (Inode × List ℕ))
      → Option (List ℕ × List ℕ)
      → Option (Inode × List ℕ)
  namex_round parent ip name next none = if parent then none else some (ip, name)
  namex_round parent ip name next (some (rest, name')) =
      if not (is_dir ip)
      then none
      else if ends_here parent rest
      then some (ip, name')
      else follow (dirlookup ip name') (λ ip'. next ip' rest name')

  -- The loop of namex, whose rounds shorten the path; the inode and the name, or none for 0.
  unfoldable pub namex_from : ℕ → Bool → Inode → List ℕ → List ℕ → Option (Inode × List ℕ)
  unfolding skipelem
  namex_from zero parent ip path name = none
  namex_from (suc fuel) parent ip path name =
      namex_round parent ip name (λ ip' rest name'. namex_from fuel parent ip' rest name')
        (skipelem path name)

  unfoldable pub namex : Inode → Inode → List ℕ → Bool → List ℕ → Option (Inode × List ℕ)
  unfolding namex_from
  namex root cwd path parent name =
      namex_from (length path + 1) parent (if starts_at_root path then root else cwd) path name
