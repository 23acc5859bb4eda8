-- ===== src/Proc/Alloc/Laws.antt =====
-- freeproc and allocproc of kernel/proc.c: which entry they change, and how.
use operationg_systems.Prelude.{
  ℕ, suc, ◌+◌, ◌≡◌, ◌≢◌, ◌<◌, ◌≤◌, refl, ap, ◌∙◌, sym, List, [], ◌∷◌, ◌==◌, if◌then◌else◌, arith,
  length, set, replicate, inl, inr, set-set, Option, some, none, ◌-◌, ok, ◌>>=◌, >>=-eq-ok,
  ok-injective, Bool-cases,
}
use operationg_systems.Proc.Types.{
  Proc, unused, used, same_state, Kernel, entry, proc_at, put_proc, with_mem,
}
use operationg_systems.Proc.Machine.{Machine}
use operationg_systems.Proc.Table.Wake.{same_state_iff}
use operationg_systems.Proc.Alloc.{
  next_int, find_unused, cleared, free_trapframe, proc_freepagetable, freeproc, proc_pagetable,
  give_up, finish_alloc, with_frame, alloc_at, alloc_found, allocproc, pgsize, junk_regs,
}

module _ (m : Machine) (trampoline forkret : ℕ) where
  -- freeproc touches the table in one entry, which it clears.
  pub procs-freeproc :
      (k : Kernel m.Mem) (i : ℕ) (k' : Kernel m.Mem)
      → freeproc m trampoline forkret k i ≡ ok k'
      → k' ≡ record k { mem = k'.mem; procs = set k.procs i (cleared (proc_at k i)) }
  unfolding freeproc
  procs-freeproc k i k' e =
      let p = proc_at k i in
      let put = λ (s : m.Mem). ok (put_proc (with_mem k s) i (cleared p)) in
      let tables = λ (s : m.Mem).
        (if p.pagetable == 0
          then ok s
          else proc_freepagetable m trampoline forkret p.pagetable p.sz s)
        >>= put in
      let (s1, _, e1) =
        >>=-eq-ok (free_trapframe m trampoline forkret p.trapframe k.mem) tables e in
      let (s2, _, e2) =
        >>=-eq-ok
          (if p.pagetable == 0
            then ok s1
            else proc_freepagetable m trampoline forkret p.pagetable p.sz s1)
          put e1 in
      ground (arith, ok-injective e2)

pub find_unused-lem :
    (b : ℕ) (ps : List Proc) (i : ℕ)
    → find_unused b ps ≡ some i
    → (b ≤ i) × (i < b + length ps) × ((entry ps (i - b)).state ≡ unused)
unfolding find_unused
find_unused-lem b [] i e = cc
find_unused-lem b (p ∷ ps) i e = elim (Bool-cases (same_state p.state unused)) [
  | inl hit ↦
      let q : b ≡ i = ground (arith, hit) in
      let s = (same_state_iff p.state unused).0 hit in
      let z : i - b ≡ 0 = omega arith in (omega arith, omega arith, rw z s)
  | inr miss ↦
      let (l, u, s) = find_unused-lem (b + 1) ps i (rw miss at e) in
      let z : i - b ≡ suc (i - (b + 1)) = omega arith in (omega arith, omega arith, rw z s)
]

-- What a successful allocproc has done to the kernel, with q the new entry at index i.
pub record Allocated {Mem : Type 0} (k k1 : Kernel Mem) (i : ℕ) (q : Proc) : Type 0 where
  pub inside : i < length k.procs
  pub free : (proc_at k i).state ≡ unused
  pub procs : k1.procs ≡ set k.procs i q
  pub next : k1.nextpid ≡ next_int k.nextpid
  pub init : k1.initproc ≡ k.initproc
  pub pid : q.pid ≡ k.nextpid
  pub state : q.state ≡ used
  pub killed : q.killed ≡ (proc_at k i).killed
  pub sz : q.sz ≡ (proc_at k i).sz

module _ (m : Machine) (trampoline forkret : ℕ) where
  give_up-none :
      (k k1 : Kernel m.Mem) (i j : ℕ) → give_up m trampoline forkret k i ≢ ok (k1, some j)
  unfolding give_up
  give_up-none k k1 i j e =
      let (k2, _, e2) =
        >>=-eq-ok (freeproc m trampoline forkret k i) (λ (k' : Kernel m.Mem). ok (k', none)) e in
      cc

  finish_alloc-some :
      (k k1 : Kernel m.Mem) (i j : ℕ) (p : Proc) (r : Option ℕ × m.Mem)
      → finish_alloc m trampoline forkret k i p r ≡ ok (k1, some j)
      → (q : Proc) × (j ≡ i)
        × (k1.procs ≡ set k.procs i q)
        × (k1.nextpid ≡ k.nextpid)
        × (k1.initproc ≡ k.initproc)
        × (record q { pagetable = 0; context = p.context } ≡ record p { pagetable = 0 })
  unfolding finish_alloc
  finish_alloc-some k k1 i j p (none, s) e =
      absurd (give_up-none (with_mem (put_proc k i (record p { pagetable = 0 })) s) k1 i j e)
  finish_alloc-some k k1 i j p (some pt, s) e = (
    record p {
      pagetable = pt;
      context = record { ra = forkret; sp = p.kstack + pgsize; saved = replicate 12 0 };
    },
    ground arith,
    ground arith,
    ground arith,
    ground arith,
    refl,
  )

  with_frame-some :
      (k k1 : Kernel m.Mem) (i j : ℕ) (p : Proc) (r : Option (ℕ × m.Mem))
      → with_frame m trampoline forkret k i p r ≡ ok (k1, some j)
      → (q : Proc) × (j ≡ i)
        × (k1.procs ≡ set k.procs i q)
        × (k1.nextpid ≡ k.nextpid)
        × (k1.initproc ≡ k.initproc)
        × (record q { pagetable = 0; context = p.context; trapframe = none }
            ≡ record p { pagetable = 0; trapframe = none })
  unfolding with_frame
  with_frame-some k k1 i j p none e =
      absurd (give_up-none (put_proc k i (record p { trapframe = none })) k1 i j e)
  with_frame-some k k1 i j p (some (pa, s)) e =
      let p1 = record p { trapframe = some (record { page = pa; regs = junk_regs }) } in
      let (r, _, e2) =
        >>=-eq-ok (proc_pagetable m trampoline forkret pa s)
          (finish_alloc m trampoline forkret k i p1) e in
      let (q, a, b, c, d, f) = finish_alloc-some k k1 i j p1 r e2 in
      (q, a, b, c, d, ap (λ (x : Proc). record x { trapframe = none }) f)

  alloc_found-Allocated :
      (k k1 : Kernel m.Mem) (i : ℕ) (o : Option ℕ)
      → find_unused 0 k.procs ≡ o
      → alloc_found m trampoline forkret k o ≡ ok (k1, some i)
      → (q : Proc) × Allocated k k1 i q
  unfolding alloc_found alloc_at
  alloc_found-Allocated k k1 i none f e = cc
  alloc_found-Allocated k k1 i (some j) f e =
      let p = record (proc_at k j) { pid = k.nextpid; state = used } in
      let (q, a, b, c, d, g) =
        with_frame-some (record k { nextpid = next_int k.nextpid; procs = set k.procs j p }) k1 j i
          p (m.kalloc k.mem) e in
      let (_, inside, free) = find_unused-lem 0 k.procs j f in
      let ji : i ≡ j = a in
      (
        q,
        record {
          inside = omega (arith);
          free = rw ji (let z : j - 0 ≡ j = omega arith in rw z at free);
          procs = b ∙ set-set k.procs j p q ∙ ap (λ n. set k.procs n q) (sym ji);
          next = c;
          init = d;
          pid = ap (λ x. x.pid) g;
          state = ap (λ x. x.state) g;
          killed = ap (λ x. x.killed) g ∙ ap (λ n. (proc_at k n).killed) (sym ji);
          sz = ap (λ x. x.sz) g ∙ ap (λ n. (proc_at k n).sz) (sym ji);
        },
      )

  -- allocproc, where it succeeds, takes an UNUSED entry of the table and makes it a USED one with the
  -- next pid, leaves every other entry as it was and moves nextpid on. It does not reset `killed`.
  pub allocproc-Allocated :
      (k k1 : Kernel m.Mem) (i : ℕ)
      → allocproc m trampoline forkret k ≡ ok (k1, some i)
      → (q : Proc) × Allocated k k1 i q
  unfolding allocproc
  allocproc-Allocated k k1 i e = alloc_found-Allocated k k1 i (find_unused 0 k.procs) refl e
