-- ===== src/Proc/Fork/Child.antt =====
-- fork of kernel/proc.c: the child that it makes.
use operationg_systems.Prelude.{
  ℕ, ◌≡◌, ◌≢◌, ◌<◌, refl, ap, ◌∙◌, sym, List, [], Bool, true, false, arith, length, set, ◌⊎◌, inl,
  inr, get_or-set_self, get_or-set_ne, set-set, Option, some, none, ok, ◌>>=◌, >>=-eq-ok,
  ok-injective,
}
use operationg_systems.Str.{safestrcpy}
use operationg_systems.Proc.Types.{
  Proc, unused, runnable, Kernel, Trapframe, entry, proc_at, put_proc, with_mem, null_proc, int_neg,
  reg_a0,
}
use operationg_systems.Proc.Machine.{Machine}
use operationg_systems.Proc.Alloc.{next_int, cleared, freeproc, allocproc}
use operationg_systems.Proc.Alloc.Laws.{Allocated, allocproc-Allocated, procs-freeproc}
use operationg_systems.Proc.Alloc.Untouched.{OnlyAt-Untouched, Untouched, allocproc-Untouched}
use operationg_systems.Proc.Fork.{
  copy_frame, dup_table, dup_files, fill_child, fork_copied, fork_found, fork,
}

-- the registers of a process, if it has a trapframe
abbrev pub regs_of : Proc → List ℕ
regs_of p = elim p.trapframe [ none ↦ [] | some t ↦ t.regs ]

-- q is a runnable child of process `me`, whose entry is p: a copy with pid `pid` and a0 as given.
pub record IsChild (me : ℕ) (p q : Proc) (pid a0 : ℕ) : Type 0 where
  pub state : q.state ≡ runnable
  pub pid_is : q.pid ≡ pid
  pub parent : q.parent ≡ some me
  pub sz : q.sz ≡ p.sz
  pub cwd : q.cwd ≡ p.cwd
  pub regs : regs_of q ≡ set (regs_of p) reg_a0 a0

module _ (m : Machine) (trampoline forkret : ℕ) where
  copy_frame-regs :
      (t u f : Option Trapframe) (a0 : ℕ)
      → copy_frame t u a0 ≡ ok f
      → (elim f [ none ↦ [] | some x ↦ x.regs ])
        ≡ set (elim t [ none ↦ [] | some x ↦ x.regs ]) reg_a0 a0
  unfolding copy_frame
  copy_frame-regs none none f a0 e = cc
  copy_frame-regs none (some u) f a0 e = cc
  copy_frame-regs (some t) none f a0 e = cc
  copy_frame-regs (some t) (some u) f a0 e = ground (arith, sym (ok-injective e))

  pub fill_child-IsChild :
      (k k' : Kernel m.Mem) (me np a0 : ℕ)
      → fill_child m trampoline forkret k me np a0 ≡ ok k'
      → (q : Proc) × (k'.procs ≡ set k.procs np q)
        × (k'.nextpid ≡ k.nextpid)
        × IsChild me (proc_at k me) q (proc_at k np).pid a0
  unfolding fill_child
  fill_child-IsChild k k' me np a0 e =
      let p = proc_at k me in
      let c = proc_at k np in
      let child = λ (f : Option Trapframe). record c {
        sz = p.sz;
        trapframe = f;
        ofile = dup_table p.ofile c.ofile;
        cwd = p.cwd;
        name = safestrcpy c.name p.name 16;
        parent = some me;
        state = runnable;
      } in
      let put = λ (f : Option Trapframe) (s : m.Mem).
        ok (put_proc (with_mem k (m.idup p.cwd s)) np (child f)) in
      let (f, e1, e2) =
        >>=-eq-ok (copy_frame p.trapframe c.trapframe a0)
          (λ f. dup_files m trampoline forkret p.ofile k.mem >>= put f) e in
      let (s, _, e3) = >>=-eq-ok (dup_files m trampoline forkret p.ofile k.mem) (put f) e2 in
      let done = sym (ok-injective e3) in
      (
        child f,
        ap (λ x. x.procs) done,
        ap (λ x. x.nextpid) done,
        record {
          state = refl;
          pid_is = refl;
          parent = refl;
          sz = refl;
          cwd = refl;
          regs = copy_frame-regs p.trapframe c.trapframe f a0 e1;
        },
      )

  -- What fork has done: failed, with every process in use as it was; or made an UNUSED entry np, and no
  -- other, a child with the next pid, which it returns, and with 0 in a0.
  abbrev pub Forked : (k k' : Kernel m.Mem) (me r : ℕ) → Type 0
  Forked k k' me r =
      ((r ≡ int_neg 1) × Untouched k k')
      ⊎ ((np : ℕ) × (np < length k.procs)
          × ((proc_at k np).state ≡ unused)
          × (r ≡ k.nextpid)
          × (k'.nextpid ≡ next_int k.nextpid)
          × IsChild me (proc_at k me) (proc_at k' np) r 0
          × ((j : ℕ) → j ≢ np → proc_at k' j ≡ proc_at k j))

  fork_copied-Forked :
      (k k1 k' : Kernel m.Mem) (me np r : ℕ) (q : Proc) (copied : Bool)
      → (proc_at k me).state ≢ unused
      → Allocated k k1 np q
      → fork_copied m trampoline forkret k1 me np copied ≡ ok (k', r)
      → Forked k k' me r
  unfolding fork_copied
  fork_copied-Forked k k1 k' me np r q false live a e =
      let (k2, e1, e2) =
        >>=-eq-ok (freeproc m trampoline forkret k1 np) (λ (x : Kernel m.Mem). ok (x, int_neg 1))
          e in
      let f = ap (λ x. x.procs) (procs-freeproc m trampoline forkret k1 np k2 e1) in
      let c = cleared (proc_at k1 np) in
      let g = sym (ok-injective e2) in
      inl (
        ap (λ x. x.1) g,
        OnlyAt-Untouched k k' np a.free (
          c,
          ap (λ x. x.0.procs) g ∙ f ∙ ap (λ ps. set ps np c) a.procs ∙ set-set k.procs np q c,
        ),
      )
  fork_copied-Forked k k1 k' me np r q true live a e =
      let (k2, e1, e2) =
        >>=-eq-ok (fill_child m trampoline forkret k1 me np 0)
          (λ (x : Kernel m.Mem). ok (x, (proc_at k1 np).pid)) e in
      let (child, f, n, is) = fill_child-IsChild k1 k2 me np 0 e1 in
      let g = sym (ok-injective e2) in
      let table : k'.procs ≡ set k.procs np child =
        ap (λ x. x.0.procs) g
        ∙ f
        ∙ ap (λ ps. set ps np child) a.procs
        ∙ set-set k.procs np q child in
      let here : proc_at k' np ≡ child =
        ap (λ ps. entry ps np) table ∙ get_or-set_self k.procs np child null_proc a.inside in
      let q_at : proc_at k1 np ≡ q =
        ap (λ ps. entry ps np) a.procs ∙ get_or-set_self k.procs np q null_proc a.inside in
      let ret : r ≡ k.nextpid = ap (λ x. x.1) g ∙ ap (λ x. x.pid) q_at ∙ a.pid in
      let me_at : proc_at k1 me ≡ proc_at k me =
        OnlyAt-Untouched k k1 np a.free (q, a.procs) me live in
      inr (
        np,
        a.inside,
        a.free,
        ret,
        ap (λ x. x.0.nextpid) g ∙ n ∙ a.next,
        rw (here, ret)
            (ground
              (arith, is.state, is.pid_is, is.parent, is.sz, is.cwd, is.regs, q_at, me_at, a.pid)),
        λ j ne.
            ap (λ ps. entry ps j) table
            ∙ get_or-set_ne k.procs np j child null_proc (λ x. ne (sym x)),
      )

  fork_found-Forked :
      (k k1 k' : Kernel m.Mem) (me r : ℕ) (found : Option ℕ)
      → (proc_at k me).state ≢ unused
      → allocproc m trampoline forkret k ≡ ok (k1, found)
      → fork_found m trampoline forkret me (k1, found) ≡ ok (k', r)
      → Forked k k' me r
  unfolding fork_found
  fork_found-Forked k k1 k' me r none live e1 e2 =
      let g = sym (ok-injective e2) in
      inl (
        ap (λ x. x.1) g,
        λ j ne.
            ap (λ x. proc_at x.0 j) g ∙ allocproc-Untouched m trampoline forkret k k1 none e1 j ne,
      )
  fork_found-Forked k k1 k' me r (some np) live e1 e2 =
      let (q, a) = allocproc-Allocated m trampoline forkret k k1 np e1 in
      let ((copied, s), _, e3) =
        >>=-eq-ok
          (m.uvmcopy (proc_at k1 me).pagetable (proc_at k1 np).pagetable (proc_at k1 me).sz k1.mem)
          (λ (copied, s). fork_copied m trampoline forkret (with_mem k1 s) me np copied) e2 in
      fork_copied-Forked k (with_mem k1 s) k' me np r q copied live
        (record {
          inside = a.inside;
          free = a.free;
          procs = a.procs;
          next = a.next;
          init = a.init;
          pid = a.pid;
          state = a.state;
          killed = a.killed;
          sz = a.sz;
        })
        e3

  -- fork, run by a process in use, fails with -1 and leaves every process in use as it was, or it turns
  -- one UNUSED entry, and no other, into a RUNNABLE child with the parent's size, directory and
  -- registers, 0 in a0 and the next pid, and returns that pid.
  pub fork_lem :
      (k k' : Kernel m.Mem) (me r : ℕ)
      → (proc_at k me).state ≢ unused
      → fork m trampoline forkret k me ≡ ok (k', r)
      → Forked k k' me r
  unfolding fork
  fork_lem k k' me r live e =
      let ((k1, found), e1, e2) =
        >>=-eq-ok (allocproc m trampoline forkret k) (fork_found m trampoline forkret me) e in
      fork_found-Forked k k1 k' me r found live e1 e2
