-- ===== src/Fs/Resolve.antt =====
-- namex of kernel/fs.c follows the elements of its path.
use operationg_systems.Prelude.{
  ℕ, zero, suc, ◌+◌, ◌≡◌, ◌<◌, refl, ap, ◌∙◌, sym, List, [], ◌∷◌, ◌++◌, Bool, true, false, not,
  if◌then◌else◌, arith, Option, none, some, length, take, Bool-cases, inl, inr, subst,
}
use operationg_systems.Str.Laws.{IsText}
use operationg_systems.Fs.Path.{
  Tree, namex_from, namex, namex_round, follow, ends_here, starts_at_root,
}
use operationg_systems.Fs.Elements.{
  elements, ends_at, name_text, AllBytes, take-AllBytes, resolve, named, skipelem-elements,
  name_text-padded,
}

-- dirlookup compares the text of a name alone, as strncmp does.
abbrev pub ReadsText : Tree → Type 0
ReadsText t =
    (ip : t.Inode) (n n' : List ℕ)
    → AllBytes (name_text 14 n)
    → name_text 14 n ≡ name_text 14 n'
    → t.dirlookup ip n ≡ t.dirlookup ip n'

module _ (t : Tree) (reads : ReadsText t) where
  nothing :
      (parent : Bool) (ip : t.Inode) (name : List ℕ)
      → named t (if parent then none else some (ip, name))
        ≡ resolve t parent ip (name_text 14 name) []
  nothing true ip name = refl
  nothing false ip name = refl

  -- A round that has taken an element off the path.
  found :
      (parent : Bool) (ip : t.Inode) (el rest name' last : List ℕ)
      → name_text 14 name' ≡ take 14 el
      → ends_here parent rest ≡ ends_at parent (elements rest)
      → t.dirlookup ip name' ≡ t.dirlookup ip (take 14 el ++ 0 ∷ [])
      → (next : t.Inode → Option (t.Inode × List ℕ))
      → ((ip' : t.Inode)
          → named t (next ip') ≡ resolve t parent ip' (name_text 14 name') (elements rest))
      → named t (
          if not (t.is_dir ip)
          then none
          else if ends_here parent rest
          then some (ip, name')
          else follow t (t.dirlookup ip name') next)
        ≡ resolve t parent ip last (el ∷ elements rest)
  found parent ip el rest name' last text ends same next ih =
      elim (Bool-cases (not (t.is_dir ip))) [
        | inl file ↦ rw file refl
        | inr dir ↦ elim (Bool-cases (ends_at parent (elements rest))) [
          | inl end ↦ rw (dir, ends, end) (ap (λ n. some (ip, n)) text)
          | inr more ↦ rw (dir, ends, more, same) (after (t.dirlookup ip (take 14 el ++ 0 ∷ [])))
        ]
      ]
    where
      after :
          (o : Option t.Inode)
          → named t (follow t o next)
            ≡ follow t o (λ ip'. resolve t parent ip' (take 14 el) (elements rest))
      after none = refl
      after (some ip') = ih ip' ∙ ap (λ n. resolve t parent ip' n (elements rest)) text

  namex_from-resolve :
      (fuel : ℕ) (parent : Bool) (ip : t.Inode) (path name : List ℕ)
      → IsText path
      → length path < fuel
      → named t (namex_from t fuel parent ip path name)
        ≡ resolve t parent ip (name_text 14 name) (elements path)
  unfolding namex_from
  namex_from-resolve zero parent ip path name z h = absurd (omega arith)
  namex_from-resolve (suc fuel) parent ip path name z h = elim (skipelem-elements path name z) [
    | inl (none_left, e) ↦
        ap
          (λ o. named t (
            namex_round t parent ip name (λ ip' rest name'. namex_from t fuel parent ip' rest name')
              o))
          e
        ∙ nothing parent ip name
        ∙ ap (resolve t parent ip (name_text 14 name)) (sym none_left)
    | inr (el, rest, name', e, f, text, shorter, ends, zel, z') ↦
        let padded = text ∙ sym (name_text-padded 14 el [] zel) in
        ap
          (λ o. named t (
            namex_round t parent ip name (λ ip' rest name'. namex_from t fuel parent ip' rest name')
              o))
          e
        ∙ found parent ip el rest name' (name_text 14 name) text (ends parent)
            (reads ip name' (take 14 el ++ 0 ∷ [])
              (subst AllBytes (sym text) (take-AllBytes 14 el zel)) padded)
            (λ ip'. namex_from t fuel parent ip' rest name')
            (λ ip'. namex_from-resolve fuel parent ip' rest name' z' (omega arith))
        ∙ ap (resolve t parent ip (name_text 14 name)) (sym f)
  ]

  -- namex, with enough rounds for every path, resolves the elements of the path one after the other, from
  -- the root if the path begins with a slash and else from the current directory: each is looked up in the
  -- inode that the one before led to, which has to be a directory, and for the parent it stops one short. It
  -- returns the same inode, and in name the text of the last element that it took.
  pub namex-resolve :
      (root cwd : t.Inode) (path : List ℕ) (parent : Bool) (name : List ℕ)
      → IsText path
      → named t (namex t root cwd path parent name)
        ≡ resolve t parent
            (if starts_at_root path then root else cwd)
            (name_text 14 name)
            (elements path)
  unfolding namex
  namex-resolve root cwd path parent name z =
      namex_from-resolve (length path + 1) parent (if starts_at_root path then root else cwd) path
        name z (omega arith)
