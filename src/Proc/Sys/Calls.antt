-- ===== src/Proc/Sys/Calls.antt =====
-- What the system calls of kernel/sysproc.c return to the user.
use operationg_systems.Prelude.{
  ℕ, zero, suc, ◌+◌, ◌-◌, ◌^◌, ◌≡◌, ◌≢◌, ap, sym, List, [], ◌∷◌, ◌++◌, false, ◌||◌, arith, ◌⊎◌, inl,
  inr, Option, some, none, ok, ◌>>=◌, >>=-eq-ok, ok-injective, Bool-cases,
}
use operationg_systems.Proc.Types.{Kernel, proc_at, int_neg, int_lt}
use operationg_systems.Proc.Machine.{Machine}
use operationg_systems.Proc.Alloc.{allocproc}
use operationg_systems.Proc.Fork.{forkn_round, forkn_next, forkn_loop, forkn}
use operationg_systems.Proc.Sys.{argraw, argint, sign_extend, forkn_result, sys_forkn}

module _ (m : Machine) (trampoline forkret : ℕ) where
  loop-negative :
      (left me i : ℕ) (pids : List ℕ) (k k' : Kernel m.Mem) (r : ℕ) (pids' : List ℕ)
      → forkn_loop m trampoline forkret me left i pids k ≡ ok (k', r, pids')
      → (r ≡ int_neg 1) ⊎ (r ≡ int_neg 2)
  unfolding forkn_loop
  loop-negative zero me i pids k k' r pids' e = inr (sym (ap (λ x. x.1) (ok-injective e)))
  loop-negative (suc left) me i pids k k' r pids' e =
      let rest = λ (k1 : Kernel m.Mem) (pid : ℕ).
        forkn_loop m trampoline forkret me left (i + 1) (pids ++ pid ∷ []) k1 in
      let ((k1, made), _, e2) =
        >>=-eq-ok (allocproc m trampoline forkret k >>= forkn_round m trampoline forkret me i pids)
          (λ (k1, made). forkn_next m trampoline forkret k1 pids (rest k1) made) e in
      go k1 made e2 (λ pid e3. loop-negative left me (i + 1) (pids ++ pid ∷ []) k1 k' r pids' e3)
    where
      go :
          (k1 : Kernel m.Mem) (made : Option ℕ)
          → forkn_next m trampoline forkret k1 pids
              (λ pid. forkn_loop m trampoline forkret me left (i + 1) (pids ++ pid ∷ []) k1)
              made
            ≡ ok (k', r, pids')
          → ((pid : ℕ)
              → forkn_loop m trampoline forkret me left (i + 1) (pids ++ pid ∷ []) k1
                ≡ ok (k', r, pids')
              → (r ≡ int_neg 1) ⊎ (r ≡ int_neg 2))
          → (r ≡ int_neg 1) ⊎ (r ≡ int_neg 2)
      go k1 none e2 ih = inl (sym (ap (λ x. x.1) (ok-injective e2)))
      go k1 (some pid) e2 ih = ih pid e2

  -- forkn never returns 0 to its caller: where it returns, it returns -1 or -2.
  pub forkn-negative :
      (k k' : Kernel m.Mem) (me n r : ℕ) (pids : List ℕ)
      → forkn m trampoline forkret k me n ≡ ok (k', r, pids)
      → (r ≡ int_neg 1) ⊎ (r ≡ int_neg 2)
  unfolding forkn
  forkn-negative k k' me n r pids e = elim (Bool-cases (int_lt n 1 || int_lt 16 n)) [
    | inl bad ↦ inl (sym (ap (λ x. x.1) (ok-injective (rw bad at e))))
    | inr good ↦ loop-negative n me 0 [] k k' r pids (rw good at e)
  ]

  -- sys_forkn, on arguments that it accepts, ends with the very kernel that forkn leaves and returns -1
  -- or -2: whatever the children's pids are, nothing is copied to the user's array.
  sys_forkn_no_copy :
      (k k' : Kernel m.Mem) (me n addr r : ℕ) (pids : List ℕ)
      → argint (proc_at k me) 0 ≡ ok n
      → argraw (proc_at k me) 1 ≡ ok addr
      → addr ≢ 0
      → (int_lt n 1 || int_lt 16 n) ≡ false
      → forkn m trampoline forkret k me n ≡ ok (k', r, pids)
      → (sys_forkn m trampoline forkret k me ≡ ok (k', 2 ^ 64 - 1))
        ⊎ (sys_forkn m trampoline forkret k me ≡ ok (k', 2 ^ 64 - 2))
  unfolding sys_forkn forkn_result sign_extend
  sys_forkn_no_copy k k' me n addr r pids en ea ne ok_n e =
      elim (forkn-negative k k' me n r pids e) [
        | inl one ↦ inl (rw (en, ea, ok_n) (rw e (ground arith)))
        | inr two ↦ inr (rw (en, ea, ok_n) (rw e (ground arith)))
      ]
