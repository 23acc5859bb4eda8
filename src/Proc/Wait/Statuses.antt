-- ===== src/Proc/Wait/Statuses.antt =====
-- The scan of waitall of kernel/proc.c: what it collects, and what it frees.
use operationg_systems.Prelude.{
  ℕ, ◌+◌, ◌≡◌, refl, ap, ◌∙◌, sym, subst, List, [], ◌∷◌, ◌++◌, map, Bool, true, false, ◌||◌,
  if◌then◌else◌, arith, length, set, inl, inr, Outcome, ok, >>=-eq-ok, Bool-cases, length-append,
  or_false, or_true,
}
use mathlib.Core.List.{append_assoc, append-nil}
use operationg_systems.Proc.Types.{Proc, Kernel, entry, proc_at}
use operationg_systems.Proc.Machine.{Machine}
use operationg_systems.Proc.Alloc.{cleared, freeproc}
use operationg_systems.Proc.Alloc.Laws.{procs-freeproc}
use operationg_systems.Proc.Wait.{is_zombie_child, waitall_scan}

-- the xstatus of each zombie child of `me`, in table order
abbrev pub zombie_statuses : ℕ → List Proc → List ℕ
zombie_statuses me [] = []
zombie_statuses me (p ∷ ps) =
    if is_zombie_child me p then p.xstatus ∷ zombie_statuses me ps else zombie_statuses me ps

-- an entry once waitall has passed it
abbrev pub reaped : ℕ → Proc → Proc
reaped me p = if is_zombie_child me p then cleared p else p

abbrev pub any_zombie : ℕ → List Proc → Bool
any_zombie me [] = false
any_zombie me (p ∷ ps) = is_zombie_child me p || any_zombie me ps

entry-middle : (xs : List Proc) (p : Proc) (ys : List Proc) → entry (xs ++ p ∷ ys) (length xs) ≡ p
entry-middle [] p ys = refl
entry-middle (x ∷ xs) p ys = entry-middle xs p ys

set-middle :
    (xs : List Proc) (p q : Proc) (ys : List Proc)
    → set (xs ++ p ∷ ys) (length xs) q ≡ (xs ++ q ∷ []) ++ ys
set-middle [] p q ys = refl
set-middle (x ∷ xs) p q ys = ap (◌∷◌ x) (set-middle xs p q ys)

module _ (m : Machine) (trampoline forkret me : ℕ) where
  scan_lem :
      (todo done : List Proc) (i : ℕ) (k : Kernel m.Mem) (st : List ℕ) (found : Bool)
      (k' : Kernel m.Mem) (st' : List ℕ) (found' : Bool)
      → i ≡ length done
      → k.procs ≡ done ++ todo
      → waitall_scan m trampoline forkret me (length todo) i k st found ≡ ok (k', st', found')
      → (st' ≡ st ++ zombie_statuses me todo)
        × (k'.procs ≡ done ++ map (reaped me) todo)
        × (found' ≡ (found || any_zombie me todo))
  unfolding waitall_scan
  scan_lem [] done i k st found k' st' found' hi hk e =
      ground (arith, append-nil st, append-nil done, hk, e, or_false found)
  scan_lem (p ∷ todo) done i k st found k' st' found' hi hk e =
      let here : proc_at k i ≡ p = rw (hk, hi) (entry-middle done p todo) in
      elim (Bool-cases (is_zombie_child me p)) [
        | inl dead ↦
            let rest = λ (k1 : Kernel m.Mem).
              waitall_scan m trampoline forkret me (length todo) (i + 1) k1
                (st ++ (proc_at k i).xstatus ∷ []) true in
            let (k1, e1, e2) = >>=-eq-ok (freeproc m trampoline forkret k i) rest (
              e' (is_zombie_child me (proc_at k i)) true _ _ e
                (ap (is_zombie_child me) here ∙ dead)) in
            let f = ap (λ q. q.procs) (procs-freeproc m trampoline forkret k i k1 e1) in
            let moved : k1.procs ≡ (done ++ cleared p ∷ []) ++ todo =
              f ∙ rw (here, hk, hi) (set-middle done p (cleared p) todo) in
            let ih =
              scan_lem todo (done ++ cleared p ∷ []) (i + 1) k1 (st ++ (proc_at k i).xstatus ∷ [])
                true k' st' found' (omega (arith, length-append done (cleared p ∷ []))) moved e2 in
            ground (
              arith,
              ih,
              here,
              append_assoc st (p.xstatus ∷ []) (zombie_statuses me todo),
              append_assoc done (cleared p ∷ []) (map (reaped me) todo),
              or_true found,
            )
        | inr alive ↦
            let e3 =
              e' (is_zombie_child me (proc_at k i)) false _ _ e
                (ap (is_zombie_child me) here ∙ alive) in
            let ih =
              scan_lem todo (done ++ p ∷ []) (i + 1) k st found k' st' found'
                (omega (arith, length-append done (p ∷ [])))
                (hk ∙ sym (append_assoc done (p ∷ []) todo)) e3 in
            ground (arith, ih, append_assoc done (p ∷ []) (map (reaped me) todo))
      ]
    where
      e' :
          (b c : Bool) (x y : Outcome (Kernel m.Mem × List ℕ × Bool))
          → (if b then x else y) ≡ ok (k', st', found')
          → b ≡ c
          → (if c then x else y) ≡ ok (k', st', found')
      e' b c x y h r = subst (λ d. (if d then x else y) ≡ ok (k', st', found')) r h

  -- A scan of waitall that goes through collects the xstatus of every zombie child, in table order,
  -- clears exactly their entries, leaves the rest of the table as it was, and tells whether there was one.
  pub waitall_scan_exact :
      (k : Kernel m.Mem) (st : List ℕ) (k' : Kernel m.Mem) (st' : List ℕ) (found : Bool)
      → waitall_scan m trampoline forkret me (length k.procs) 0 k st false ≡ ok (k', st', found)
      → (st' ≡ st ++ zombie_statuses me k.procs)
        × (k'.procs ≡ map (reaped me) k.procs)
        × (found ≡ any_zombie me k.procs)
  waitall_scan_exact k st k' st' found e = scan_lem k.procs [] 0 k st false k' st' found refl refl e
