-- ===== src/Fs/Elements.antt =====
-- The elements of a path, and that skipelem and namex of kernel/fs.c take them one by one.
use operationg_systems.Prelude.{
  ℕ, zero, suc, ◌+◌, ◌≡◌, ◌≤◌, ◌<◌, refl, ap, ◌∙◌, sym, List, [], ◌∷◌, ◌++◌, Bool, false, not, ◌==◌,
  leb, if◌then◌else◌, arith, Option, none, some, length, take, drop, Bool-cases, inl, inr, ◌⊎◌,
  ==_ne, subst,
}
use mathlib.Core.List.{append-nil, append_assoc}
use operationg_systems.Str.Laws.{IsText}
use operationg_systems.Fs.Path.{
  skip_slashes, read_elem, store_name, skip_from, skipelem, Tree, ends_here, follow,
}

-- The pieces between slashes that are not empty, `cur` being what has been read of the first one.
abbrev pub pieces : List ℕ → List ℕ → List (List ℕ)
pieces [] [] = []
pieces (c ∷ cur) [] = (c ∷ cur) ∷ []
pieces [] (x ∷ path) = if x == b'/' then pieces [] path else pieces (x ∷ []) path
pieces (c ∷ cur) (x ∷ path) =
    if x == b'/' then (c ∷ cur) ∷ pieces [] path else pieces ((c ∷ cur) ++ x ∷ []) path

abbrev pub elements : List ℕ → List (List ℕ)
elements path = pieces [] path

-- The name that a buffer holds: its bytes before a 0, of DIRSIZ bytes.
abbrev pub name_text : ℕ → List ℕ → List ℕ
name_text zero name = []
name_text (suc n) [] = []
name_text (suc n) (c ∷ name) = if c == 0 then [] else c ∷ name_text n name

abbrev pub AllBytes : List ℕ → Type 0
AllBytes [] = Unit {0}
AllBytes (c ∷ s) = (c < 256) × AllBytes s

pub take-AllBytes : (n : ℕ) (e : List ℕ) → IsText e → AllBytes (take n e)
take-AllBytes zero e z = tt
take-AllBytes (suc n) [] z = tt
take-AllBytes (suc n) (c ∷ e) z = (z.0.1, take-AllBytes n e z.1)

elements-skip_slashes : (path : List ℕ) → elements (skip_slashes path) ≡ elements path
unfolding skip_slashes
elements-skip_slashes [] = refl
elements-skip_slashes (c ∷ path) = elim (Bool-cases (c == b'/')) [
  | inl slash ↦ rw slash (elements-skip_slashes path)
  | inr other ↦ rw other (rw other refl)
]

pieces-read_elem :
    (c : ℕ) (cur path : List ℕ)
    → pieces (c ∷ cur) path ≡ ((c ∷ cur) ++ (read_elem path).0) ∷ elements (read_elem path).1
unfolding read_elem
pieces-read_elem c cur [] = ap (λ l. (c ∷ l) ∷ []) (sym (append-nil cur))
pieces-read_elem c cur (x ∷ path) = elim (Bool-cases (x == b'/')) [
  | inl slash ↦ rw slash (rw slash (ap (λ l. (c ∷ l) ∷ elements path) (sym (append-nil cur))))
  | inr other ↦ rw other (
      pieces-read_elem c (cur ++ x ∷ []) path
      ∙ ap (λ l. (c ∷ l) ∷ elements (read_elem path).1)
          (append_assoc cur (x ∷ []) (read_elem path).0))
]

-- What is left of a path is shorter.
length-skip_slashes : (path : List ℕ) → length (skip_slashes path) ≤ length path
unfolding skip_slashes
length-skip_slashes [] = omega arith
length-skip_slashes (c ∷ path) = ground (arith, length-skip_slashes path)

length-read_elem : (path : List ℕ) → length (read_elem path).1 ≤ length path
unfolding read_elem
length-read_elem [] = omega arith
length-read_elem (c ∷ path) = ground (arith, length-read_elem path)

skip_slashes-IsText : (path : List ℕ) → IsText path → IsText (skip_slashes path)
unfolding skip_slashes
skip_slashes-IsText [] n = tt
skip_slashes-IsText (c ∷ path) n = elim (Bool-cases (c == b'/')) [
  | inl slash ↦ rw slash (skip_slashes-IsText path n.1)
  | inr other ↦ rw other n
]

read_elem-IsText :
    (path : List ℕ) → IsText path → IsText (read_elem path).0 × IsText (read_elem path).1
unfolding read_elem
read_elem-IsText [] n = (tt, tt)
read_elem-IsText (c ∷ path) n = elim (Bool-cases (c == b'/')) [
  | inl slash ↦ rw slash (tt, n)
  | inr other ↦ rw other ((n.0, (read_elem-IsText path n.1).0), (read_elem-IsText path n.1).1)
]

-- The path behind its slashes is empty, or begins with another byte.
skip_slashes-first :
    (path : List ℕ)
    → (skip_slashes path ≡ [])
      ⊎ ((c : ℕ) × (rest : List ℕ) × (skip_slashes path ≡ c ∷ rest) × ((c == b'/') ≡ false))
unfolding skip_slashes
skip_slashes-first [] = inl refl
skip_slashes-first (c ∷ path) = elim (Bool-cases (c == b'/')) [
  | inl slash ↦ rw slash (skip_slashes-first path)
  | inr other ↦ rw other (inr (c, path, refl, other))
]

name_text-take : (n : ℕ) (e : List ℕ) → IsText e → name_text n (take n e) ≡ take n e
name_text-take zero e z = refl
name_text-take (suc n) [] z = refl
name_text-take (suc n) (c ∷ e) z =
    rw (==_ne c 0 (omega arith)) (ap (λ l. c ∷ l) (name_text-take n e z.1))

name_text-short :
    (n : ℕ) (e name : List ℕ) → IsText e → length e < n → name_text n (e ++ 0 ∷ name) ≡ take n e
name_text-short zero e name z h = absurd (omega arith)
name_text-short (suc n) [] name z h = refl
name_text-short (suc n) (c ∷ e) name z h =
    rw (==_ne c 0 (omega arith)) (ap (λ l. c ∷ l) (name_text-short n e name z.1 (omega arith)))

name_text-store_name : (e name : List ℕ) → IsText e → name_text 14 (store_name e name) ≡ take 14 e
unfolding store_name
name_text-store_name e name z = elim (Bool-cases (leb 14 (length e))) [
  | inl long ↦ rw long (name_text-take 14 e z)
  | inr short ↦ rw short (name_text-short 14 e (drop (length e + 1) name) z (ground (arith, short)))
]

abbrev pub ends_at : Bool → List (List ℕ) → Bool
ends_at parent [] = parent
ends_at parent (e ∷ es) = false

ends_here-skip_slashes :
    (path : List ℕ) (parent : Bool)
    → ends_here parent (skip_slashes path) ≡ ends_at parent (elements path)
ends_here-skip_slashes path parent = elim (skip_slashes-first path) [
  | inl nothing ↦
      ap (ends_here parent) nothing
      ∙ ap (ends_at parent) (sym (ap elements nothing) ∙ elements-skip_slashes path)
  | inr (c, rest, e, other) ↦
      let more : elements (c ∷ rest) ≡ (c ∷ (read_elem rest).0) ∷ elements (read_elem rest).1 =
        rw other (pieces-read_elem c [] rest) in
      ap (ends_here parent) e
      ∙ ap (ends_at parent) (sym more ∙ sym (ap elements e) ∙ elements-skip_slashes path)
]

-- skipelem takes the first element off the path: it puts the element's first DIRSIZ bytes into name and
-- returns a shorter path with the other elements, which is empty exactly if there are none, or 0 if the path
-- has no element.
pub skipelem-elements :
    (path name : List ℕ)
    → IsText path
    → ((elements path ≡ []) × (skipelem path name ≡ none))
      ⊎ ((e rest name' : List ℕ) × (skipelem path name ≡ some (rest, name'))
          × (elements path ≡ e ∷ elements rest)
          × (name_text 14 name' ≡ take 14 e)
          × (length rest < length path)
          × ((parent : Bool) → ends_here parent rest ≡ ends_at parent (elements rest))
          × IsText e
          × IsText rest)
unfolding skipelem skip_from read_elem
skipelem-elements path name z = elim (skip_slashes-first path) [
  | inl nothing ↦ inl (sym (elements-skip_slashes path) ∙ ap elements nothing, rw nothing refl)
  | inr (c, rest, e, other) ↦
      let r = read_elem rest in
      let nz = subst IsText e (skip_slashes-IsText path z) in
      let parts = read_elem-IsText rest nz.1 in
      inr (
        c ∷ r.0,
        skip_slashes r.1,
        store_name (c ∷ r.0) name,
        ap (λ p. skip_from p name) e ∙ rw other refl,
        sym (elements-skip_slashes path)
            ∙ ap elements e
            ∙ rw other (pieces-read_elem c [] rest)
            ∙ ap (λ l. (c ∷ r.0) ∷ l) (sym (elements-skip_slashes r.1)),
        name_text-store_name (c ∷ r.0) name (nz.0, parts.0),
        omega (
          arith,
          length-skip_slashes r.1,
          length-read_elem rest,
          length-skip_slashes path,
          ap length e,
        ),
        λ parent.
            ends_here-skip_slashes r.1 parent
            ∙ ap (ends_at parent) (sym (elements-skip_slashes r.1)),
        (nz.0, parts.0),
        skip_slashes-IsText r.1 parts.1,
      )
]

-- namex over the elements themselves: one dirlookup for each, in the inode that the one before has led to.
abbrev pub resolve :
    (t : Tree) → Bool → t.Inode → List ℕ → List (List ℕ) → Option (t.Inode × List ℕ)
resolve t parent ip last [] = if parent then none else some (ip, last)
resolve t parent ip last (e ∷ es) =
    let text = take 14 e in
    if not (t.is_dir ip)
    then none
    else if ends_at parent es
    then some (ip, text)
    else follow t (t.dirlookup ip (text ++ 0 ∷ [])) (λ ip'. resolve t parent ip' text es)

abbrev pub named : (t : Tree) → Option (t.Inode × List ℕ) → Option (t.Inode × List ℕ)
named t none = none
named t (some (ip, name)) = some (ip, name_text 14 name)

pub name_text-padded :
    (n : ℕ) (e ys : List ℕ) → IsText e → name_text n (take n e ++ 0 ∷ ys) ≡ take n e
name_text-padded zero e ys z = refl
name_text-padded (suc n) [] ys z = refl
name_text-padded (suc n) (c ∷ e) ys z =
    rw (==_ne c 0 (omega arith)) (ap (λ l. c ∷ l) (name_text-padded n e ys z.1))
