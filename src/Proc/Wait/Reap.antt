-- ===== src/Proc/Wait/Reap.antt =====
-- One pass of wait of kernel/proc.c.
use operationg_systems.Prelude.{
  ℕ, zero, suc, ◌+◌, ◌≡◌, ◌<◌, ◌≤◌, ap, ◌∙◌, sym, subst, List, Bool, true, false, not, ◌||◌, ◌==◌,
  if◌then◌else◌, arith, length, or_assoc, ◌⊎◌, inl, inr, ok, first_or_none,
}
use native.Mathlib.Decide.{ℕ_discrete}
use native.Mathlib.Nat.{le_refl}
use operationg_systems.Proc.Types.{
  Proc, Kernel, entry, proc_at, points_to, proc_chan, int_neg, null_proc,
}
use operationg_systems.Proc.Machine.{Machine}
use operationg_systems.Proc.Table.{go_to_sleep, killed}
use operationg_systems.Proc.Wait.{is_zombie_child, WaitStep, reap, wait_end, wait_scan, wait}

-- whether one of the `n` entries from index `i` on is a child of `me`
abbrev pub has_child : ℕ → ℕ → ℕ → List Proc → Bool
has_child me zero i ps = false
has_child me (suc n) i ps = points_to (entry ps i).parent me || has_child me n (i + 1) ps

module _ (m : Machine) (trampoline forkret : ℕ) (k : Kernel m.Mem) (me addr msg_addr : ℕ) where
  scan_zombie :
      (n i z : ℕ) (kids : Bool)
      → i ≤ z
      → z < i + n
      → is_zombie_child me (proc_at k z) ≡ true
      → ((j : ℕ) → i ≤ j → j < z → is_zombie_child me (proc_at k j) ≡ false)
      → wait_scan m trampoline forkret k me addr msg_addr n i kids
        ≡ reap m trampoline forkret k me addr msg_addr z
  unfolding wait_scan
  scan_zombie zero i z kids a b e first = absurd (omega arith)
  scan_zombie (suc n) i z kids a b e first = elim (ℕ_discrete i z) [
    | yes here ↦
        subst
          (λ w.
            wait_scan m trampoline forkret k me addr msg_addr (suc n) i kids
            ≡ reap m trampoline forkret k me addr msg_addr w)
          here (rw (subst (λ w. is_zombie_child me (proc_at k w) ≡ true) (sym here) e))
    | no later ↦ rw (first i (le_refl i) (omega arith)) (
        scan_zombie n (i + 1) z (kids || points_to (proc_at k i).parent me) (omega arith)
          (omega arith) e (λ j c d. first j (omega arith) d))
  ]

  scan_none :
      (n i : ℕ) (kids : Bool)
      → ((j : ℕ) → i ≤ j → j < i + n → is_zombie_child me (proc_at k j) ≡ false)
      → wait_scan m trampoline forkret k me addr msg_addr n i kids
        ≡ ok (wait_end m trampoline forkret k me (kids || has_child me n i k.procs))
  unfolding wait_scan
  scan_none zero i kids none_is = ground arith
  scan_none (suc n) i kids none_is = rw (none_is i (le_refl i) (omega arith)) (
      scan_none n (i + 1) (kids || points_to (proc_at k i).parent me)
        (λ j c d. none_is j (omega arith) (omega arith))
      ∙ ap (λ b. ok (wait_end m trampoline forkret k me b))
          (or_assoc kids (points_to (proc_at k i).parent me) (has_child me n (i + 1) k.procs)))

  -- A pass of wait reaps the first zombie child in table order; or there is none, and it returns -1 when
  -- the process has no child or is killed, and otherwise goes to sleep on its own channel.
  pub wait_exact :
      ((z : ℕ) × (z < length k.procs)
        × (is_zombie_child me (proc_at k z) ≡ true)
        × ((j : ℕ) → j < z → is_zombie_child me (proc_at k j) ≡ false)
        × (wait m trampoline forkret k me addr msg_addr
            ≡ reap m trampoline forkret k me addr msg_addr z))
      ⊎ (((j : ℕ) → j < length k.procs → is_zombie_child me (proc_at k j) ≡ false)
          × (wait m trampoline forkret k me addr msg_addr
              ≡ ok (
                  if not (has_child me (length k.procs) 0 k.procs) || not (killed me k.procs == 0)
                  then WaitStep.returned k (int_neg 1)
                  else WaitStep.asleep
                      (record k { procs = go_to_sleep me (proc_chan me) k.procs }))))
  unfolding wait wait_end
  wait_exact = elim (first_or_none (is_zombie_child me) k.procs null_proc) [
    | inl (z, h, e, first) ↦ inl (
      z,
      h,
      e,
      first,
      scan_zombie (length k.procs) 0 z false (omega arith) (omega arith) e (λ j _ b. first j b),
    )
    | inr none_is ↦
        inr (none_is, scan_none (length k.procs) 0 false (λ j _ b. none_is j (omega arith)))
  ]
