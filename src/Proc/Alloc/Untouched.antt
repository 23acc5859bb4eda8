-- ===== src/Proc/Alloc/Untouched.antt =====
-- allocproc of kernel/proc.c leaves the entries in use alone, also where it fails.
use operationg_systems.Prelude.{
  ℕ, ◌≡◌, ◌≢◌, refl, ap, ◌∙◌, sym, subst, List, arith, set, set-set, get_or-set_ne, Option, some,
  none, ◌-◌, ok, >>=-eq-ok, ok-injective,
}
use operationg_systems.Proc.Types.{
  Proc, unused, used, Kernel, entry, proc_at, put_proc, with_mem, null_proc,
}
use operationg_systems.Proc.Machine.{Machine}
use operationg_systems.Proc.Alloc.Laws.{procs-freeproc, find_unused-lem}
use operationg_systems.Proc.Alloc.{
  next_int, find_unused, cleared, freeproc, proc_pagetable, give_up, finish_alloc, with_frame,
  alloc_at, alloc_found, allocproc, junk_regs,
}

-- Nothing happens to an entry in use.
abbrev pub Untouched : {Mem : Type 0} → Kernel Mem → Kernel Mem → Type 0
Untouched k k' = (j : ℕ) → (proc_at k j).state ≢ unused → proc_at k' j ≡ proc_at k j

-- The states in which allocproc leaves the entry that it took.
abbrev pub OnlyAt : List Proc → ℕ → List Proc → Type 0
OnlyAt ps i ps' = (q : Proc) × (ps' ≡ set ps i q)

pub OnlyAt-Untouched :
    {Mem : Type 0} (k k' : Kernel Mem) (i : ℕ)
    → (proc_at k i).state ≡ unused
    → OnlyAt k.procs i k'.procs
    → Untouched k k'
OnlyAt-Untouched k k' i s (q, e) j ne =
    ap (λ ps. entry ps j) e
    ∙ get_or-set_ne k.procs i j q null_proc
        (λ p. ne (subst (λ n. (proc_at k n).state ≡ unused) p s))

module _ (m : Machine) (trampoline forkret : ℕ) where
  give_up-OnlyAt :
      (k k1 : Kernel m.Mem) (i : ℕ) (o : Option ℕ)
      → give_up m trampoline forkret k i ≡ ok (k1, o)
      → OnlyAt k.procs i k1.procs
  unfolding give_up
  give_up-OnlyAt k k1 i o e =
      let (k2, e1, e2) =
        >>=-eq-ok (freeproc m trampoline forkret k i) (λ (k' : Kernel m.Mem). ok (k', none)) e in
      let f = ap (λ x. x.procs) (procs-freeproc m trampoline forkret k i k2 e1) in
      (cleared (proc_at k i), ap (λ x. x.procs) (ap (λ x. x.0) (sym (ok-injective e2))) ∙ f)

  finish_alloc-OnlyAt :
      (k k1 : Kernel m.Mem) (i : ℕ) (o : Option ℕ) (p : Proc) (r : Option ℕ × m.Mem)
      → finish_alloc m trampoline forkret k i p r ≡ ok (k1, o)
      → OnlyAt k.procs i k1.procs
  unfolding finish_alloc
  finish_alloc-OnlyAt k k1 i o p (none, s) e =
      let q = record p { pagetable = 0 } in
      let (c, f) = give_up-OnlyAt (with_mem (put_proc k i q) s) k1 i o e in
      (c, f ∙ set-set k.procs i q c)
  finish_alloc-OnlyAt k k1 i o p (some pt, s) e =
      (_, ap (λ x. x.procs) (ap (λ x. x.0) (sym (ok-injective e))))

  with_frame-OnlyAt :
      (k k1 : Kernel m.Mem) (i : ℕ) (o : Option ℕ) (p : Proc) (r : Option (ℕ × m.Mem))
      → with_frame m trampoline forkret k i p r ≡ ok (k1, o)
      → OnlyAt k.procs i k1.procs
  unfolding with_frame
  with_frame-OnlyAt k k1 i o p none e =
      let q = record p { trapframe = none } in
      let (c, f) = give_up-OnlyAt (put_proc k i q) k1 i o e in (c, f ∙ set-set k.procs i q c)
  with_frame-OnlyAt k k1 i o p (some (pa, s)) e =
      let p1 = record p { trapframe = some (record { page = pa; regs = junk_regs }) } in
      let (r, _, e2) =
        >>=-eq-ok (proc_pagetable m trampoline forkret pa s)
          (finish_alloc m trampoline forkret k i p1) e in
      finish_alloc-OnlyAt k k1 i o p1 r e2

  alloc_found-Untouched :
      (k k1 : Kernel m.Mem) (o f : Option ℕ)
      → find_unused 0 k.procs ≡ f
      → alloc_found m trampoline forkret k f ≡ ok (k1, o)
      → Untouched k k1
  unfolding alloc_found alloc_at
  alloc_found-Untouched k k1 o none e1 e2 =
      λ j ne. ap (λ x. proc_at x j) (ap (λ x. x.0) (sym (ok-injective e2)))
  alloc_found-Untouched k k1 o (some i) e1 e2 =
      let p = record (proc_at k i) { pid = k.nextpid; state = used } in
      let k0 = record k { nextpid = next_int k.nextpid; procs = set k.procs i p } in
      let (c, f) = with_frame-OnlyAt k0 k1 i o p (m.kalloc k.mem) e2 in
      let (_, _, free) = find_unused-lem 0 k.procs i e1 in
      let z : i - 0 ≡ i = omega arith in
      OnlyAt-Untouched k k1 i (rw z at free) (c, f ∙ set-set k.procs i p c)

  -- Whether allocproc succeeds or not, it leaves every entry in use as it was.
  pub allocproc-Untouched :
      (k k1 : Kernel m.Mem) (o : Option ℕ)
      → allocproc m trampoline forkret k ≡ ok (k1, o)
      → Untouched k k1
  unfolding allocproc
  allocproc-Untouched k k1 o e = alloc_found-Untouched k k1 o (find_unused 0 k.procs) refl e
