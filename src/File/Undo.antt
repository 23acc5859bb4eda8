-- ===== src/File/Undo.antt =====
-- pipealloc of kernel/pipe.c, where it fails: what it has taken is put back.
use operationg_systems.Prelude.{
  ℕ, zero, suc, ◌≡◌, ◌≢◌, ◌<◌, ◌⊎◌, inl, inr, refl, ap, ◌∙◌, sym, subst, arith, List, [], ◌∷◌, true,
  false, ◌==◌, if◌then◌else◌, Option, none, some, set, get_or-set_self, get_or-set_ne, set-set,
  replicate, ◌++◌, length, Outcome, ok, panic, Option-cases,
}
use operationg_systems.Kalloc.{Kmem, kalloc}
use operationg_systems.Pipe.{new_pipe}
use operationg_systems.File.{
  File, fd_none, file_at, null_file, free_file, filealloc, fileclose, Files, pipe_end, with_second,
  with_page, nothing,
}
use operationg_systems.File.Counted.{free_file-found}

-- A file without references has no type.
abbrev pub FreeIsUntyped : List File → Type 0
FreeIsUntyped files = (f : ℕ) → (file_at files f).ref ≡ 0 → (file_at files f).type ≡ fd_none

abbrev pub opened_file : File → File
opened_file x = record x { ref = 1 }

pub filealloc_cases :
    (files : List File)
    → (filealloc files ≡ (none, files))
      ⊎ ((f : ℕ) × (filealloc files ≡ (some f, set files f (opened_file (file_at files f))))
          × (f < length files)
          × ((file_at files f).ref ≡ 0))
unfolding filealloc
filealloc_cases files = elim (Option-cases (free_file 0 files)) [
  | inl e ↦ inl (rw e refl)
  | inr (f, e) ↦
      let (j, at, inside, free) = free_file-found 0 files f e in
      let j_f : j ≡ f = omega (arith, at) in
      inr (
        f,
        rw e refl,
        subst (λ n. n < length files) j_f inside,
        subst (λ n. (file_at files n).ref ≡ 0) j_f free,
      )
]

-- The fileclose of a file that filealloc has just returned puts back what was there.
close_opened :
    (files : List File) (f : ℕ) (x : File)
    → x.ref ≡ 0
    → x.type ≡ fd_none
    → file_at files f ≡ opened_file x
    → fileclose files f ≡ ok (set files f x, nothing)
unfolding fileclose
close_opened files f x r t e = rw e (
    rw t (
      ap (λ y. ok (set files f y, nothing))
        (ap (λ n. record x { type = fd_none; ref = n }) (sym r))))

set_self : (files : List File) (f : ℕ) → set files f (file_at files f) ≡ files
set_self [] f = refl
set_self (x ∷ files) zero = refl
set_self (x ∷ files) (suc f) = ap (λ l. x ∷ l) (set_self files f)

pub set_comm :
    (files : List File) (f g : ℕ) (x y : File)
    → f ≢ g
    → set (set files f x) g y ≡ set (set files g y) f x
set_comm [] f g x y h = refl
set_comm (z ∷ files) zero zero x y h = absurd (h refl)
set_comm (z ∷ files) zero (suc g) x y h = refl
set_comm (z ∷ files) (suc f) zero x y h = refl
set_comm (z ∷ files) (suc f) (suc g) x y h =
    ap (λ l. z ∷ l) (set_comm files f g x y (λ e. h (ap suc e)))

-- What pipealloc promises of the state s, for its result and the state behind it.
abbrev pub Made : Files → Option (ℕ × ℕ) × Files → Type 0
Made s (none, s') =
    (s'.table ≡ s.table)
    × (s'.pipes ≡ s.pipes)
    × (s'.mem ≡ s.mem)
    × ((n : ℕ) × (s'.released ≡ replicate n nothing ++ s.released))
Made s (some (f0, f1), s') =
    let pi = (kalloc s.mem).0 in
    (pi ≢ 0)
    × (f0 ≢ f1)
    × ((file_at s.table f0).ref ≡ 0)
    × ((file_at s.table f1).ref ≡ 0)
    × (s' ≡ record s {
      table =
          set (set s.table f0 (pipe_end pi false (opened_file (file_at s.table f0)))) f1
            (pipe_end pi true (opened_file (file_at s.table f1)));
      pipes = λ a. if a == pi then new_pipe else s.pipes a;
      mem = (kalloc s.mem).1;
    })

abbrev pub Answers : Files → Outcome (Option (ℕ × ℕ) × Files) → Type 0
Answers s panic = ⊥
Answers s (ok r) = Made s r

-- One file was taken, and its slot is given back.
pub one_back :
    (end f : ℕ) (s : Files)
    → FreeIsUntyped s.table
    → f < length s.table
    → (file_at s.table f).ref ≡ 0
    → Answers s (
        with_second end f none
          (record s { table = set s.table f (opened_file (file_at s.table f)) }))
unfolding with_second
one_back end f s untyped inside free =
    let x = file_at s.table f in
    let close =
      close_opened (set s.table f (opened_file x)) f x free (untyped f free)
        (get_or-set_self s.table f (opened_file x) null_file inside) in
    rw close (set-set s.table f (opened_file x) x ∙ set_self s.table f, refl, refl, (1, refl))

-- Two files were taken, and kalloc has no page.
pub two_back :
    (end f g : ℕ) (s : Files) (mem : Kmem)
    → FreeIsUntyped s.table
    → f ≢ g
    → f < length s.table
    → g < length s.table
    → (file_at s.table f).ref ≡ 0
    → (file_at s.table g).ref ≡ 0
    → mem ≡ s.mem
    → Answers s (
        with_page end f g 0 (record s {
          table =
              set
                (set s.table f (opened_file (file_at s.table f)))
                g
                (opened_file (file_at s.table g));
          mem = mem;
        }))
unfolding with_page
two_back end f g s mem untyped apart f_in g_in f_free g_free same =
    let x = file_at s.table f in
    let y = file_at s.table g in
    let t1 = set s.table f (opened_file x) in
    let t2 = set t1 g (opened_file y) in
    let first = close_opened t2 f x f_free (untyped f f_free) (
      get_or-set_ne t1 g f (opened_file y) null_file (λ e. apart (sym e))
      ∙ get_or-set_self s.table f (opened_file x) null_file f_in) in
    let t3 : set t2 f x ≡ set s.table g (opened_file y) =
      set_comm t1 g f (opened_file y) x (λ e. apart (sym e))
      ∙ ap (λ l. set l g (opened_file y))
          (set-set s.table f (opened_file x) x ∙ set_self s.table f) in
    let second =
      close_opened (set s.table g (opened_file y)) g y g_free (untyped g g_free)
        (get_or-set_self s.table g (opened_file y) null_file g_in) in
    rw first (
      rw t3 (
        rw second
          (set-set s.table g (opened_file y) y ∙ set_self s.table g, refl, same, (2, refl))))
