-- ===== src/Proc/Alloc.antt =====
-- kernel/proc.c of Assignment1_2: allocpid, freeproc, proc_pagetable, proc_freepagetable, allocproc,
-- userinit and growproc.
pub mod Laws
pub mod Untouched
use operationg_systems.Prelude.{
  ℕ, zero, suc, ◌+◌, ◌-◌, ◌*◌, ◌%◌, ◌^◌, List, [], ◌∷◌, Bool, true, false, ◌==◌, if◌then◌else◌,
  Option, none, some, Outcome, ok, panic, ◌>>=◌, ◌>>◌, set, replicate, ltb,
}
use operationg_systems.Proc.Types.{
  Proc, ProcState, unused, used, same_state, no_chan, Kernel, Trapframe, entry, proc_at, put_proc,
  with_mem, Context, null_proc, int_neg, int_lt,
}
use operationg_systems.Proc.Machine.{Machine}

-- TRAMPOLINE and TRAPFRAME of memlayout.h, and the permissions of riscv.h.
abbrev pub trampoline_va : ℕ
trampoline_va = 2 ^ 38 - 4096

abbrev pub trapframe_va : ℕ
trapframe_va = 2 ^ 38 - 2 * 4096

abbrev pub pgsize : ℕ
pgsize = 4096

-- What kalloc leaves in a page: each byte 5.
abbrev pub junk_regs : List ℕ
junk_regs = replicate 36 0x0505050505050505

-- allocpid: the pid, and the next one, an int that wraps.
abbrev pub next_int : ℕ → ℕ
next_int pid = (pid + 1) % 2 ^ 32

-- The first UNUSED entry, counting from `i`.
unfoldable pub find_unused : ℕ → List Proc → Option ℕ
unfolding same_state
find_unused i [] = none
find_unused i (p ∷ ps) =
    let rest = find_unused (i + 1) ps in if same_state p.state unused then some i else rest

-- The stores of freeproc.
unfoldable pub cleared : Proc → Proc
cleared p = record p {
  trapframe = none;
  pagetable = 0;
  sz = 0;
  pid = 0;
  parent = none;
  name = set p.name 0 0;
  chan = no_chan;
  killed = 0;
  xstate = 0;
  state = unused;
}

-- `forkret` and `trampoline` are the addresses of that code in the kernel.
module _ (m : Machine) (trampoline forkret : ℕ) where
  open m use {Mem, kalloc, kfree, uvmcreate, mappages, uvmunmap, uvmfree, uvmalloc, uvmdealloc}

  pub free_trapframe : Option Trapframe → Mem → Outcome Mem
  free_trapframe none s = ok s
  free_trapframe (some t) s = kfree t.page s

  unfoldable pub proc_freepagetable : ℕ → ℕ → Mem → Outcome Mem
  proc_freepagetable pagetable sz s = do
    s1 ← uvmunmap pagetable trampoline_va 1 0 s
    s2 ← uvmunmap pagetable trapframe_va 1 0 s1
    uvmfree pagetable sz s2

  unfoldable pub freeproc : Kernel Mem → ℕ → Outcome (Kernel Mem)
  unfolding free_trapframe
  freeproc k i = do
    s1 ← free_trapframe (proc_at k i).trapframe k.mem
    s2 ←
        (if (proc_at k i).pagetable == 0
          then ok s1
          else proc_freepagetable (proc_at k i).pagetable (proc_at k i).sz s1)
    ok (put_proc (with_mem k s2) i (cleared (proc_at k i)))

  -- PTE_R | PTE_X is 10, PTE_R | PTE_W is 6.
  map_trapframe : ℕ → ℕ → Mem → Outcome (Option ℕ × Mem)
  map_trapframe pagetable frame s = do
    (mapped, s1) ← mappages pagetable trapframe_va pgsize frame 6 s
    if mapped
        then ok (some pagetable, s1)
        else uvmunmap pagetable trampoline_va 1 0 s1 >>= uvmfree pagetable 0 >>= λ s2. ok (none, s2)

  map_trampoline : ℕ → ℕ → Mem → Outcome (Option ℕ × Mem)
  unfolding map_trapframe
  map_trampoline pagetable frame s = do
    (mapped, s1) ← mappages pagetable trampoline_va pgsize trampoline 10 s
    if mapped
        then map_trapframe pagetable frame s1
        else uvmfree pagetable 0 s1 >>= λ s2. ok (none, s2)

  unfoldable pub proc_pagetable : ℕ → Mem → Outcome (Option ℕ × Mem)
  unfolding map_trampoline
  proc_pagetable frame s = elim (uvmcreate s) [
    | none ↦ ok (none, s)
    | some (pagetable, s1) ↦ map_trampoline pagetable frame s1
  ]

  -- The way out of allocproc when memory runs out.
  pub give_up : Kernel Mem → ℕ → Outcome (Kernel Mem × Option ℕ)
  unfolding freeproc
  give_up k i = do k' ← freeproc k i; ok (k', none)

  -- allocproc behind proc_pagetable, p being what the entry i holds by then.
  pub finish_alloc : Kernel Mem → ℕ → Proc → Option ℕ × Mem → Outcome (Kernel Mem × Option ℕ)
  unfolding give_up
  finish_alloc k i p (none, s) = give_up (with_mem (put_proc k i (record p { pagetable = 0 })) s) i
  finish_alloc k i p (some pagetable, s) =
      let ctx : Context = record { ra = forkret; sp = p.kstack + pgsize; saved = replicate 12 0 } in
      ok (with_mem (put_proc k i (record p { pagetable = pagetable; context = ctx })) s, some i)

  -- allocproc behind kalloc.
  pub with_frame : Kernel Mem → ℕ → Proc → Option (ℕ × Mem) → Outcome (Kernel Mem × Option ℕ)
  unfolding finish_alloc proc_pagetable
  with_frame k i p none = give_up (put_proc k i (record p { trapframe = none })) i
  with_frame k i p (some (pa, s)) =
      let frame : Trapframe = record { page = pa; regs = junk_regs } in
      proc_pagetable pa s >>= finish_alloc k i (record p { trapframe = some frame })

  -- allocproc behind `found`, for the entry `i`.
  pub alloc_at : Kernel Mem → ℕ → Outcome (Kernel Mem × Option ℕ)
  unfolding with_frame
  alloc_at k i =
      let p = record (proc_at k i) { pid = k.nextpid; state = used } in
      with_frame (record k { nextpid = next_int k.nextpid; procs = set k.procs i p }) i p
        (kalloc k.mem)

  -- allocproc behind its loop over the table.
  pub alloc_found : Kernel Mem → Option ℕ → Outcome (Kernel Mem × Option ℕ)
  unfolding alloc_at
  alloc_found k none = ok (k, none)
  alloc_found k (some i) = alloc_at k i

  unfoldable pub allocproc : Kernel Mem → Outcome (Kernel Mem × Option ℕ)
  unfolding alloc_found
  allocproc k = alloc_found k (find_unused 0 k.procs)

  -- growproc(n): n is an int; sz + n is taken in 64 bits, with the sign of n. PTE_W is 4.
  unfoldable pub growproc : Kernel Mem → ℕ → ℕ → Outcome (Kernel Mem × ℕ)
  growproc k me n =
      let p = proc_at k me in
      let keep = λ (sz : ℕ) (s : Mem). put_proc (with_mem k s) me (record p { sz = sz }) in
      if int_lt 0 n
      then (do
        (sz, s) ← uvmalloc p.pagetable p.sz ((p.sz + n) % 2 ^ 64) 4 k.mem
        ok (if sz == 0 then (with_mem k s, int_neg 1) else (keep sz s, 0)))
      else if int_lt n 0
      then (do
        (sz, s) ← uvmdealloc p.pagetable p.sz ((p.sz + (2 ^ 64 - (2 ^ 32 - n))) % 2 ^ 64) k.mem
        ok (keep sz s, 0))
      else ok (keep p.sz k.mem, 0)
