-- ===== src/Proc/Wait/Rounds.antt =====
-- One round of waitall of kernel/proc.c, from a pass over the table to its return or its sleep.
use operationg_systems.Prelude.{
  ℕ, ◌≡◌, refl, subst, List, ◌++◌, map, Bool, true, false, not, ◌||◌, ◌⊎◌, inl, inr, if◌then◌else◌,
  length, ok, >>=-eq-ok, ok-injective, Bool-cases,
}
use operationg_systems.Proc.Types.{
  Proc, Kernel, entry, proc_at, with_mem, proc_chan, int_neg, int_lt,
}
use operationg_systems.Proc.Machine.{Machine}
use operationg_systems.Proc.Table.{go_to_sleep}
use operationg_systems.Proc.Wait.{
  WaitallStep, int_bytes, ints_bytes, waitall_scan, waitall_end, waitall_round,
}
use operationg_systems.Proc.Wait.Statuses.{zombie_statuses, any_zombie, reaped, waitall_scan_exact}

module _ (m : Machine) (trampoline forkret me n_addr statuses_addr : ℕ) where
  -- What waitall comes back with: 0 where the number of the statuses and the statuses come to the user, else -1.
  abbrev pub Returns : List Proc → List ℕ → WaitallStep m.Mem → Type 0
  Returns ps all w =
      let table = (entry ps me).pagetable in
      (s : m.Mem) × (k' : Kernel m.Mem) × (r : ℕ) × (w ≡ WaitallStep.returned k' r)
      × (k'.procs ≡ ps)
      × ((((m.copyout table n_addr (int_bytes (length all)) s).0 ≡ true)
            × ((m.copyout table statuses_addr (ints_bytes all)
                  (m.copyout table n_addr (int_bytes (length all)) s).1).0
                ≡ true)
            × (r ≡ 0))
          ⊎ ((((m.copyout table n_addr (int_bytes (length all)) s).0 ≡ false)
                ⊎ ((m.copyout table statuses_addr (ints_bytes all)
                      (m.copyout table n_addr (int_bytes (length all)) s).1).0
                    ≡ false))
              × (r ≡ int_neg 1)))

  waitall_end-Returns :
      (k : Kernel m.Mem) (all : List ℕ)
      → Returns k.procs all (waitall_end m trampoline forkret k me n_addr statuses_addr all)
  unfolding waitall_end
  waitall_end-Returns k all =
      let table = (proc_at k me).pagetable in
      let counted = m.copyout table n_addr (int_bytes (length all)) k.mem in
      let listed = m.copyout table statuses_addr (ints_bytes all) counted.1 in
      elim (Bool-cases counted.0) [
        | inr lost ↦
            (k.mem, with_mem k counted.1, int_neg 1, rw lost refl, refl, inr (inl lost, refl))
        | inl written ↦ elim (Bool-cases listed.0) [
          | inr lost ↦ (
            k.mem,
            with_mem k listed.1,
            int_neg 1,
            rw (written, lost) refl,
            refl,
            inr (inr lost, refl),
          )
          | inl both ↦ (
            k.mem,
            with_mem k listed.1,
            0,
            rw (written, both) refl,
            refl,
            inl (written, both, refl),
          )
        ]
      ]

  -- How a round ends that has left the table ps, with the statuses `all`, where `found` tells whether this
  -- round had a zombie child.
  abbrev pub Ends : List Proc → List ℕ → Bool → ℕ → WaitallStep m.Mem → Type 0
  Ends ps all found expected w =
      ((int_lt (length all) expected ≡ true)
        × (found ≡ true)
        × ((k' : Kernel m.Mem) × (w ≡ WaitallStep.asleep k' all)
            × (k'.procs ≡ go_to_sleep me (proc_chan me) ps)))
      ⊎ (((int_lt (length all) expected ≡ false) ⊎ (found ≡ false)) × Returns ps all w)

  round-Ends :
      (k : Kernel m.Mem) (all : List ℕ) (found : Bool) (expected : ℕ)
      → Ends k.procs all found expected (
          if not (int_lt (length all) expected) || not found
          then waitall_end m trampoline forkret k me n_addr statuses_addr all
          else WaitallStep.asleep (record k { procs = go_to_sleep me (proc_chan me) k.procs }) all)
  round-Ends k all found expected =
      let over = waitall_end-Returns k all in
      elim (Bool-cases (int_lt (length all) expected)) [
        | inr many ↦ rw many (inr (inl refl, over))
        | inl few ↦ elim (Bool-cases found) [
          | inr idle ↦ rw (few, idle) (inr (inr refl, over))
          | inl some_found ↦
              rw (few, some_found)
                (inl (
                  refl,
                  refl,
                  (record k { procs = go_to_sleep me (proc_chan me) k.procs }, refl, refl),
                ))
        ]
      ]

  -- A round of waitall that goes through has freed every zombie child, and adds their statuses in table order to
  -- those collected. It sleeps exactly if it found a zombie child and has fewer statuses than expected, and keeps
  -- the statuses. Else it returns, also where children still run and none is a zombie: 0 if the number of the
  -- statuses and the statuses come to the user, and -1 if they do not, when the children are freed all the same.
  pub waitall_round_lem :
      (k : Kernel m.Mem) (expected : ℕ) (st : List ℕ) (w : WaitallStep m.Mem)
      → waitall_round m trampoline forkret k me n_addr statuses_addr expected st ≡ ok w
      → Ends
          (map (reaped me) k.procs)
          (st ++ zombie_statuses me k.procs)
          (any_zombie me k.procs)
          expected
          w
  unfolding waitall_round
  waitall_round_lem k expected st w e =
      let (r, scanned, last) =
        >>=-eq-ok (waitall_scan m trampoline forkret me (length k.procs) 0 k st false) _ e in
      let x = waitall_scan_exact m trampoline forkret me k st r.0 r.1 r.2 scanned in
      subst (λ ps. Ends ps (st ++ zombie_statuses me k.procs) (any_zombie me k.procs) expected w)
        x.1
        (subst (λ all. Ends r.0.procs all (any_zombie me k.procs) expected w) x.0
          (subst (λ found. Ends r.0.procs r.1 found expected w) x.2
            (subst (λ v. Ends r.0.procs r.1 r.2 expected v) (ok-injective last)
              (round-Ends r.0 r.1 r.2 expected))))
