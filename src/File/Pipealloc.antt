-- ===== src/File/Pipealloc.antt =====
-- pipealloc of kernel/pipe.c, whether it succeeds or not.
use operationg_systems.Prelude.{
  ℕ, ◌≡◌, ◌≢◌, ◌<◌, inl, inr, refl, ap, ◌∙◌, sym, subst, arith, List, true, false, ◌==◌, ==_iff,
  ==_ne, if◌then◌else◌, some, set, get_or-set_self, get_or-set_ne, set-set, length-set, length, ok,
  Bool-cases,
}
use operationg_systems.Kalloc.{Kmem, kalloc}
use operationg_systems.Pipe.{new_pipe}
use operationg_systems.File.{
  File, file_at, null_file, Files, pipe_end, with_first, with_second, with_page, pipealloc,
}
use operationg_systems.File.Undo.{
  FreeIsUntyped, opened_file, filealloc_cases, Answers, one_back, two_back, set_comm,
}

-- Both files and a page: the two ends are written into the files.
both_made :
    (end f g pi : ℕ) (s : Files) (mem : Kmem)
    → f ≢ g
    → f < length s.table
    → g < length s.table
    → pi ≢ 0
    → with_page end f g pi (record s {
      table =
          set (set s.table f (opened_file (file_at s.table f))) g (opened_file (file_at s.table g));
      mem = mem;
    })
      ≡ ok (
        some (f, g),
        record s {
          table =
              set
                (set s.table f (pipe_end pi false (opened_file (file_at s.table f))))
                g
                (pipe_end pi true (opened_file (file_at s.table g)));
          pipes = λ a. if a == pi then new_pipe else s.pipes a;
          mem = mem;
        },
      )
unfolding with_page
both_made end f g pi s mem apart f_in g_in page =
    let x = opened_file (file_at s.table f) in
    let y = opened_file (file_at s.table g) in
    let t1 = set s.table f x in
    let p = pipe_end pi false x in
    let at_f : file_at (set t1 g y) f ≡ x =
      get_or-set_ne t1 g f y null_file (λ e. apart (sym e))
      ∙ get_or-set_self s.table f x null_file f_in in
    let moved : set (set t1 g y) f p ≡ set (set s.table f p) g y =
      set_comm t1 g f y p (λ e. apart (sym e)) ∙ ap (λ l. set l g y) (set-set s.table f x p) in
    let at_g : file_at (set (set s.table f p) g y) g ≡ y =
      get_or-set_self (set s.table f p) g y null_file (omega (arith, length-set s.table f p)) in
    rw (==_ne pi 0 page)
      (rw at_f (rw moved (rw at_g (rw (set-set (set s.table f p) g y (pipe_end pi true y)) refl))))

kalloc_null : (k : Kmem) → (kalloc k).0 ≡ 0 → (kalloc k).1 ≡ k
unfolding kalloc
kalloc_null k e = elim (Bool-cases (k.freelist == 0)) [
  | inl empty ↦ rw empty refl
  | inr page ↦ absurd (ground (arith, page, e))
]

two_taken :
    (end f g : ℕ) (s : Files)
    → FreeIsUntyped s.table
    → f ≢ g
    → f < length s.table
    → g < length s.table
    → (file_at s.table f).ref ≡ 0
    → (file_at s.table g).ref ≡ 0
    → Answers s (
        with_page end f g (kalloc s.mem).0 (record s {
          table =
              set
                (set s.table f (opened_file (file_at s.table f)))
                g
                (opened_file (file_at s.table g));
          mem = (kalloc s.mem).1;
        }))
two_taken end f g s untyped apart f_in g_in f_free g_free =
    elim (Bool-cases ((kalloc s.mem).0 == 0)) [
      | inl nowhere ↦
          let zero_page = (==_iff (kalloc s.mem).0 0).0 nowhere in
          let both =
            set (set s.table f (opened_file (file_at s.table f))) g
              (opened_file (file_at s.table g)) in
          subst
            (λ q.
              Answers s (with_page end f g q (record s { table = both; mem = (kalloc s.mem).1 })))
            (sym zero_page)
            (two_back end f g s (kalloc s.mem).1 untyped apart f_in g_in f_free g_free
              (kalloc_null s.mem zero_page))
      | inr page ↦
          let other : (kalloc s.mem).0 ≢ 0 = ground (arith, page) in
          rw (both_made end f g (kalloc s.mem).0 s (kalloc s.mem).1 apart f_in g_in other)
            (other, apart, f_free, g_free, refl)
    ]

one_taken :
    (end f : ℕ) (s : Files)
    → FreeIsUntyped s.table
    → f < length s.table
    → (file_at s.table f).ref ≡ 0
    → Answers s (
        with_first end
          (some f)
          (record s { table = set s.table f (opened_file (file_at s.table f)) }))
unfolding with_first with_second
one_taken end f s untyped inside free = elim (filealloc_cases t1) [
  | inl e ↦
      subst (λ a. Answers s (with_second end f a.0 (record s { table = a.1 }))) (sym e)
        (one_back end f s untyped inside free)
  | inr (g, e, g_in, g_free) ↦
      let apart : f ≢ g = λ same.
        absurd (omega (arith, ap (λ n. (file_at t1 n).ref) same, g_free, ap (λ y. y.ref) here)) in
      let at_g = get_or-set_ne s.table f g x null_file apart in
      subst (λ a. Answers s (with_second end f a.0 (record s { table = a.1 }))) (sym e)
        (subst
          (λ y. Answers s (
            with_page end f g (kalloc s.mem).0
              (record s { table = set t1 g (opened_file y); mem = (kalloc s.mem).1 })))
          (sym at_g)
          (two_taken end f g s untyped apart inside (omega (arith, g_in, length-set s.table f x))
            free (sym (ap (λ y. y.ref) at_g) ∙ g_free)))
]
  where
    x : File
    x = opened_file (file_at s.table f)

    t1 : List File
    t1 = set s.table f x

    here : file_at t1 f ≡ x
    here = get_or-set_self s.table f x null_file inside

-- pipealloc returns, where the files without references have no type. Either it has taken two different files
-- without references and a page that kalloc returned, made them the reading and the writing end of a new pipe
-- in that page, and left all else; or it fails, and then the table, the pipes and the memory are as before,
-- and no pipe is closed and no inode put on the way.
pub pipealloc_lem : (end : ℕ) (s : Files) → FreeIsUntyped s.table → Answers s (pipealloc end s)
unfolding pipealloc with_first
pipealloc_lem end s untyped = elim (filealloc_cases s.table) [
  | inl e ↦
      subst (λ a. Answers s (with_first end a.0 (record s { table = a.1 }))) (sym e)
        (refl, refl, refl, (0, refl))
  | inr (f, e, inside, free) ↦
      subst (λ a. Answers s (with_first end a.0 (record s { table = a.1 }))) (sym e)
        (one_taken end f s untyped inside free)
]
