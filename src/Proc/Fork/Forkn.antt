-- ===== src/Proc/Fork/Forkn.antt =====
-- forkn of kernel/proc.c: the children that it makes, and what it returns.
use operationg_systems.Prelude.{
  ℕ, zero, suc, ◌+◌, ◌≡◌, ◌≢◌, ◌<◌, ap, ◌∙◌, sym, subst, List, [], ◌∷◌, ◌++◌, Bool, true, false,
  ◌||◌, arith, length, set, inl, inr, get_or-set_self, set-set, Option, some, none, ok, ◌>>=◌,
  >>=-eq-ok, ok-injective, Bool-cases,
}
use mathlib.Core.List.{append_assoc, append-nil}
use operationg_systems.Proc.Types.{
  Proc, unused, runnable, Kernel, entry, proc_at, put_proc, with_mem, null_proc, int_neg, int_lt,
}
use operationg_systems.Proc.Machine.{Machine}
use operationg_systems.Proc.Alloc.{next_int, freeproc, allocproc}
use operationg_systems.Proc.Alloc.Laws.{allocproc-Allocated}
use operationg_systems.Proc.Alloc.Untouched.{OnlyAt-Untouched, Untouched}
use operationg_systems.Proc.Fork.{
  fill_child, forkn_copied, forkn_into, forkn_round, forkn_next, forkn_loop, forkn,
}
use operationg_systems.Proc.Fork.Child.{IsChild, fill_child-IsChild}

-- the pids that `n` calls of allocpid in a row return
abbrev pub pids_from : ℕ → ℕ → List ℕ
pids_from zero pid = []
pids_from (suc n) pid = pid ∷ pids_from n (next_int pid)

-- For each pid of the list, in order, there is a runnable child of `me` with that pid and the round,
-- from `i` on, in a0.
abbrev pub HasChildren : List Proc → ℕ → Proc → ℕ → List ℕ → Type 0
HasChildren ps me p i [] = Unit {0}
HasChildren ps me p i (pid ∷ pids) =
    ((np : ℕ) × IsChild me p (entry ps np) pid i) × HasChildren ps me p (i + 1) pids

-- A round that made a child.
record Round {Mem : Type 0} (k k2 : Kernel Mem) (me i pid : ℕ) : Type 0 where
  at : ℕ
  child : IsChild me (proc_at k me) (proc_at k2 at) pid i
  pid_is : pid ≡ k.nextpid
  next : k2.nextpid ≡ next_int k.nextpid
  others : Untouched k k2

module _ (m : Machine) (trampoline forkret : ℕ) where
  copied-Round :
      (k k1 k2 : Kernel m.Mem) (me np i pid : ℕ) (q : Proc) (copied : Bool)
      → (proc_at k me).state ≢ unused
      → np < length k.procs
      → (proc_at k np).state ≡ unused
      → k1.procs ≡ set k.procs np q
      → k1.nextpid ≡ next_int k.nextpid
      → q.pid ≡ k.nextpid
      → forkn_copied m trampoline forkret k1 me np i copied ≡ ok (k2, some pid)
      → Round k k2 me i pid
  unfolding forkn_copied
  copied-Round k k1 k2 me np i pid q false live inside free procs next qpid e =
      let (x, _, e2) =
        >>=-eq-ok (freeproc m trampoline forkret k1 np) (λ (y : Kernel m.Mem). ok (y, none)) e in
      cc
  copied-Round k k1 k2 me np i pid q true live inside free procs next qpid e =
      let (x, e1, e2) =
        >>=-eq-ok (fill_child m trampoline forkret k1 me np i)
          (λ (y : Kernel m.Mem). ok (y, some (proc_at k1 np).pid)) e in
      let (child, f, n, is) = fill_child-IsChild m trampoline forkret k1 x me np i e1 in
      let g = sym (ok-injective e2) in
      let table : k2.procs ≡ set k.procs np child =
        ap (λ y. y.0.procs) g ∙ f ∙ ap (λ ps. set ps np child) procs ∙ set-set k.procs np q child in
      let here : proc_at k2 np ≡ child =
        ap (λ ps. entry ps np) table ∙ get_or-set_self k.procs np child null_proc inside in
      let q_at : proc_at k1 np ≡ q =
        ap (λ ps. entry ps np) procs ∙ get_or-set_self k.procs np q null_proc inside in
      let ret : pid ≡ (proc_at k1 np).pid = ground (arith, ap (λ y. y.1) g) in
      let me_at : proc_at k1 me ≡ proc_at k me = OnlyAt-Untouched k k1 np free (q, procs) me live in
      record {
        at = np;
        child =
            rw here
              (ground (arith, is.state, is.pid_is, is.parent, is.sz, is.cwd, is.regs, ret, me_at));
        pid_is = ret ∙ ap (λ y. y.pid) q_at ∙ qpid;
        next = ap (λ y. y.0.nextpid) g ∙ n ∙ next;
        others = OnlyAt-Untouched k k2 np free (child, table);
      }

  found-Round :
      (k k1 k2 : Kernel m.Mem) (me i pid : ℕ) (pids : List ℕ) (found : Option ℕ)
      → (proc_at k me).state ≢ unused
      → allocproc m trampoline forkret k ≡ ok (k1, found)
      → forkn_round m trampoline forkret me i pids (k1, found) ≡ ok (k2, some pid)
      → Round k k2 me i pid
  unfolding forkn_round forkn_into
  found-Round k k1 k2 me i pid pids none live e1 e2 = cc
  found-Round k k1 k2 me i pid pids (some np) live e1 e2 =
      let (q, a) = allocproc-Allocated m trampoline forkret k k1 np e1 in
      let sized = record (proc_at k1 np) { sz = (proc_at k1 me).sz } in
      let k3 = put_proc k1 np sized in
      let ((copied, s), _, e3) =
        >>=-eq-ok
          (m.uvmcopy (proc_at k3 me).pagetable (proc_at k3 np).pagetable (proc_at k3 me).sz k3.mem)
          (λ (copied, s). forkn_copied m trampoline forkret (with_mem k3 s) me np i copied) e2 in
      let q_at : proc_at k1 np ≡ q =
        ap (λ ps. entry ps np) a.procs ∙ get_or-set_self k.procs np q null_proc a.inside in
      copied-Round k (with_mem k3 s) k2 me np i pid sized copied live a.inside a.free
        (ap (λ ps. set ps np sized) a.procs ∙ set-set k.procs np q sized) a.next
        (ap (λ x. x.pid) q_at ∙ a.pid) e3

  Round-Round :
      (k k2 : Kernel m.Mem) (me i pid : ℕ) (pids : List ℕ)
      → (proc_at k me).state ≢ unused
      → (allocproc m trampoline forkret k >>= forkn_round m trampoline forkret me i pids)
        ≡ ok (k2, some pid)
      → Round k k2 me i pid
  Round-Round k k2 me i pid pids live e =
      let ((k1, found), e1, e2) =
        >>=-eq-ok (allocproc m trampoline forkret k) (forkn_round m trampoline forkret me i pids)
          e in
      found-Round k k1 k2 me i pid pids found live e1 e2

-- What a run of the loop that did not fail has done.
record Ran {Mem : Type 0} (k k' : Kernel Mem) (me left i : ℕ) (pids pids' : List ℕ) : Type 0 where
  array : pids' ≡ pids ++ pids_from left k.nextpid
  children : HasChildren k'.procs me (proc_at k me) i (pids_from left k.nextpid)
  others : Untouched k k'

module _ (m : Machine) (trampoline forkret : ℕ) where
  mutual_step :
      (k k1 k' : Kernel m.Mem) (me left i pid : ℕ) (pids pids' : List ℕ)
      → (proc_at k me).state ≢ unused
      → Round k k1 me i pid
      → Ran k1 k' me left (i + 1) (pids ++ pid ∷ []) pids'
      → Ran k k' me (suc left) i pids pids'
  mutual_step k k1 k' me left i pid pids pids' live r s =
      let me_at : proc_at k1 me ≡ proc_at k me = r.others me live in
      let kept : proc_at k' r.at ≡ proc_at k1 r.at =
        s.others r.at (λ e. runnable_used (sym r.child.state ∙ e)) in
      record {
        array =
            s.array
            ∙ ap (λ n. (pids ++ pid ∷ []) ++ pids_from left n) r.next
            ∙ append_assoc pids (pid ∷ []) (pids_from left (next_int k.nextpid))
            ∙ ap (λ n. pids ++ n ∷ pids_from left (next_int k.nextpid)) r.pid_is;
        children = (
          (
            r.at,
            subst (λ n. IsChild me (proc_at k me) (proc_at k' r.at) n i) r.pid_is (rw kept r.child),
          ),
          subst (λ p. HasChildren k'.procs me p (i + 1) (pids_from left (next_int k.nextpid))) me_at
              (subst (λ n. HasChildren k'.procs me (proc_at k1 me) (i + 1) (pids_from left n))
                r.next s.children),
        );
        others = λ j ne.
            s.others j (λ e. ne (ap (λ p. p.state) (sym (r.others j ne)) ∙ e)) ∙ r.others j ne;
      }
    where
      runnable_used : ¬ (runnable ≡ unused)
      runnable_used e = cc

  loop-Ran :
      (left me i : ℕ) (pids : List ℕ) (k k' : Kernel m.Mem) (pids' : List ℕ)
      → (proc_at k me).state ≢ unused
      → forkn_loop m trampoline forkret me left i pids k ≡ ok (k', int_neg 2, pids')
      → Ran k k' me left i pids pids'
  unfolding forkn_loop
  loop-Ran zero me i pids k k' pids' live e =
      let g = sym (ok-injective e) in
      record {
        array = ap (λ x. x.2) g ∙ sym (append-nil pids);
        children = tt;
        others = λ j ne. ap (λ x. proc_at x.0 j) g;
      }
  loop-Ran (suc left) me i pids k k' pids' live e =
      let rest = λ (k1 : Kernel m.Mem) (pid : ℕ).
        forkn_loop m trampoline forkret me left (i + 1) (pids ++ pid ∷ []) k1 in
      let ((k1, made), e1, e2) =
        >>=-eq-ok (allocproc m trampoline forkret k >>= forkn_round m trampoline forkret me i pids)
          (λ (k1, made). forkn_next m trampoline forkret k1 pids (rest k1) made) e in
      go k1 made e1 e2
        (λ pid live1 e3. loop-Ran left me (i + 1) (pids ++ pid ∷ []) k1 k' pids' live1 e3)
    where
      go :
          (k1 : Kernel m.Mem) (made : Option ℕ)
          → (allocproc m trampoline forkret k >>= forkn_round m trampoline forkret me i pids)
            ≡ ok (k1, made)
          → forkn_next m trampoline forkret k1 pids
              (λ pid. forkn_loop m trampoline forkret me left (i + 1) (pids ++ pid ∷ []) k1)
              made
            ≡ ok (k', int_neg 2, pids')
          → ((pid : ℕ)
              → (proc_at k1 me).state ≢ unused
              → forkn_loop m trampoline forkret me left (i + 1) (pids ++ pid ∷ []) k1
                ≡ ok (k', int_neg 2, pids')
              → Ran k1 k' me left (i + 1) (pids ++ pid ∷ []) pids')
          → Ran k k' me (suc left) i pids pids'
      go k1 none e1 e2 ih = absurd (omega (arith, ap (λ x. x.1) (ok-injective e2)))
      go k1 (some pid) e1 e2 ih =
          let r = Round-Round m trampoline forkret k k1 me i pid pids live e1 in
          mutual_step k k1 k' me left i pid pids pids' live r
            (ih pid (λ s. live (ap (λ p. p.state) (sym (r.others me live)) ∙ s)) e2)

  -- Where forkn(n, pids), run by a process in use, returns -2, the array holds n pids in a row from
  -- nextpid on; to the pid at each index there is a RUNNABLE child of the process, with its size,
  -- directory and registers, whose a0 is the index; and every process that was in use is unchanged.
  pub forkn_lem :
      (k k' : Kernel m.Mem) (me n : ℕ) (pids : List ℕ)
      → (proc_at k me).state ≢ unused
      → forkn m trampoline forkret k me n ≡ ok (k', int_neg 2, pids)
      → (pids ≡ pids_from n k.nextpid)
        × HasChildren k'.procs me (proc_at k me) 0 pids
        × Untouched k k'
  unfolding forkn
  forkn_lem k k' me n pids live e = elim (Bool-cases (int_lt n 1 || int_lt 16 n)) [
    | inl bad ↦ absurd (omega (arith, ap (λ x. x.1) (ok-injective (rw bad at e))))
    | inr good ↦
        let r = loop-Ran n me 0 [] k k' pids live (rw good at e) in
        (
          r.array,
          subst (HasChildren k'.procs me (proc_at k me) 0) (sym r.array) r.children,
          r.others,
        )
  ]
