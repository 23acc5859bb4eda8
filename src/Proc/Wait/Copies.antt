-- ===== src/Proc/Wait/Copies.antt =====
-- What wait of kernel/proc.c does with the zombie child that it has found.
use operationg_systems.Prelude.{
  subst, ℕ, ◌+◌, ◌≡◌, ◌≢◌, ◌<◌, refl, ap, sym, List, Bool, true, false, ◌==◌, if◌then◌else◌, length,
  take, set, get_or-set_self, get_or-set_ne, length-set, ◌⊎◌, inl, inr, none, Outcome, ok, panic,
  ◌>>=◌, Bool-cases,
}
use operationg_systems.Str.{strlen}
use operationg_systems.Proc.Types.{
  Proc, ProcState, Chan, Kernel, entry, proc_at, with_mem, int_neg, null_proc,
}
use operationg_systems.Proc.Machine.{Machine}
use operationg_systems.Proc.Alloc.{cleared, freeproc}
use operationg_systems.Proc.Alloc.Laws.{procs-freeproc}
use operationg_systems.Proc.Wait.{WaitStep, int_bytes, reap}

-- The table once the entry z has been freed: allocproc can take the entry, no process finds itself the parent
-- of it, and no other entry has changed.
pub record IsFreed (old new : List Proc) (z : ℕ) : Type 0 where
  pub state : (entry new z).state ≡ ProcState.unused
  pub pid : (entry new z).pid ≡ 0
  pub parent : (entry new z).parent ≡ none
  pub chan : (entry new z).chan ≡ Chan.no_chan
  pub killed : (entry new z).killed ≡ 0
  pub xstate : (entry new z).xstate ≡ 0
  pub sz : (entry new z).sz ≡ 0
  pub pagetable : (entry new z).pagetable ≡ 0
  pub trapframe : (entry new z).trapframe ≡ none
  pub size : length new ≡ length old
  pub others : (j : ℕ) → j ≢ z → entry new j ≡ entry old j

set-IsFreed :
    (ps : List Proc) (z : ℕ) → z < length ps → IsFreed ps (set ps z (cleared (entry ps z))) z
unfolding cleared
set-IsFreed ps z inside =
    let here = get_or-set_self ps z (cleared (entry ps z)) null_proc inside in
    record {
      state = ap (λ p. p.state) here;
      pid = ap (λ p. p.pid) here;
      parent = ap (λ p. p.parent) here;
      chan = ap (λ p. p.chan) here;
      killed = ap (λ p. p.killed) here;
      xstate = ap (λ p. p.xstate) here;
      sz = ap (λ p. p.sz) here;
      pagetable = ap (λ p. p.pagetable) here;
      trapframe = ap (λ p. p.trapframe) here;
      size = length-set ps z (cleared (entry ps z));
      others =
          λ j other. get_or-set_ne ps z j (cleared (entry ps z)) null_proc (λ e. other (sym e));
    }

outcome_cases {ℓ} : {A : Type ℓ} (o : Outcome A) → (o ≡ panic) ⊎ ((a : A) × (o ≡ ok a))
outcome_cases panic = inl refl
outcome_cases (ok a) = inr (a, refl)

module _ (m : Machine) (trampoline forkret : ℕ) (k : Kernel m.Mem) (me addr msg_addr : ℕ) where
  -- Whether xstate comes to the user, and the memory then; NULL wants none of it.
  abbrev pub status_copy : ℕ → Bool × m.Mem
  status_copy z =
      if addr == 0
      then (true, k.mem)
      else m.copyout (proc_at k me).pagetable addr (int_bytes (proc_at k z).xstate) k.mem

  -- The same of the message up to its 0.
  abbrev pub message_copy : ℕ → Bool × m.Mem
  message_copy z =
      let msg = (proc_at k z).exit_msg in
      m.copyout (proc_at k me).pagetable msg_addr (take (strlen msg + 1) msg) (status_copy z).1

  -- wait, having found the zombie child z, returns -1 and leaves the whole table as it was, so that the child
  -- stays a zombie, exactly if the status or the message does not come to the user. Where both do, it returns
  -- the child's pid with its entry free and every other entry as it was, unless freeproc panics on it.
  pub reap_lem :
      (z : ℕ)
      → z < length k.procs
      → ((((status_copy z).0 ≡ false) ⊎ ((message_copy z).0 ≡ false))
          × ((k' : Kernel m.Mem) × (reap m trampoline forkret k me addr msg_addr z
                ≡ ok (WaitStep.returned k' (int_neg 1)))
              × (k'.procs ≡ k.procs)))
        ⊎ (((status_copy z).0 ≡ true)
            × ((message_copy z).0 ≡ true)
            × ((s : m.Mem) × (((freeproc m trampoline forkret (with_mem k s) z ≡ panic)
                    × (reap m trampoline forkret k me addr msg_addr z ≡ panic))
                  ⊎ ((k' : Kernel m.Mem) × (reap m trampoline forkret k me addr msg_addr z
                        ≡ ok (WaitStep.returned k' (proc_at k z).pid))
                      × IsFreed k.procs k'.procs z))))
  unfolding reap
  reap_lem z inside = elim (Bool-cases (status_copy z).0) [
    | inr lost ↦ inl (inl lost, (with_mem k (status_copy z).1, rw lost refl, refl))
    | inl stored ↦ elim (Bool-cases (message_copy z).0) [
      | inr lost ↦ inl (inr lost, (with_mem k (message_copy z).1, rw (stored, lost) refl, refl))
      | inl told ↦
          let msg = (proc_at k z).exit_msg in
          let s : m.Mem =
            if msg_addr == 0
            then (message_copy z).1
            else (m.copyout (proc_at k me).pagetable msg_addr msg (message_copy z).1).1 in
          let last = λ (k' : Kernel m.Mem). ok (WaitStep.returned k' (proc_at k z).pid) in
          inr (
            stored,
            told,
            (
              s,
              elim (outcome_cases (freeproc m trampoline forkret (with_mem k s) z)) [
                | inl stops ↦ inl (stops, rw (stored, told) (ap (λ o. o >>= last) stops))
                | inr (k', e) ↦ inr (
                  k',
                  rw (stored, told) (ap (λ o. o >>= last) e),
                  subst (λ ps. IsFreed k.procs ps z)
                      (sym (
                        ap (λ x. x.procs)
                          (procs-freeproc m trampoline forkret (with_mem k s) z k' e)))
                      (set-IsFreed k.procs z inside),
                )
              ],
            ),
          )
    ]
  ]
