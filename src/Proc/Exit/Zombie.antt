-- ===== src/Proc/Exit/Zombie.antt =====
-- What exit of kernel/proc.c leaves behind.
use operationg_systems.Prelude.{
  ℕ, ◌≡◌, ◌≢◌, ◌<◌, refl, ◌∙◌, subst, List, [], ◌∷◌, map, false, ◌==◌, if◌then◌else◌, arith, length,
  inl, inr, length-set, get_or-set_self, get_or-set_ne, some, ok, ◌>>=◌, >>=-eq-ok, ok-injective,
  Bool-cases,
}
use operationg_systems.Proc.Types.{
  Chan, Proc, Kernel, runnable, zombie, entry, proc_at, put_proc, null_proc, points_to, proc_chan,
}
use operationg_systems.Proc.Machine.{Machine}
use operationg_systems.Proc.Table.{wake_one, wakeup, wake_all, reparent, chan_of}
use operationg_systems.Proc.Table.Wake.{wakeup-get, length-wakeup, same_chan_refl}
use operationg_systems.Proc.Table.Reparent.{
  parent-reparent, orphan, orphan-reparent, IsWaiting, reparent-IsWaiting, parent-wakeup,
  length-reparent,
}
use operationg_systems.Proc.Exit.{
  store_msg, woken, become_zombie, close_file, close_files, drop_cwd, exit,
}

length-wake_all :
    (me : ℕ) (cs : List Chan) (ps : List Proc) → length (wake_all me cs ps) ≡ length ps
unfolding wake_all
length-wake_all me [] ps = refl
length-wake_all me (c ∷ cs) ps = length-wake_all me cs (wakeup me c ps) ∙ length-wakeup me c ps

wake_all_self :
    (me : ℕ) (cs : List Chan) (ps : List Proc) → entry (wake_all me cs ps) me ≡ entry ps me
unfolding wake_all
wake_all_self me [] ps = refl
wake_all_self me (c ∷ cs) ps =
    wake_all_self me cs (wakeup me c ps) ∙ ground (arith, wakeup-get me c me ps)

-- exit's last critical section turns process `me`, which is not initproc, into a ZOMBIE of exit status 0.
-- Then every former child of `me` is one of initproc, every other process keeps its parent, and no
-- process is a child of `me`.
pub become_zombie_lem :
    {Mem : Type 0} (k : Kernel Mem) (me j : ℕ)
    → me < length k.procs
    → points_to k.initproc me ≡ false
    → let k' = become_zombie k me in
      ((proc_at k' me).state ≡ zombie)
      × ((proc_at k' me).xstate ≡ 0)
      × (points_to (proc_at k' j).parent me ≡ false)
      × ((proc_at k' j).parent
          ≡ (if points_to (proc_at k j).parent me then k.initproc else (proc_at k j).parent))
unfolding become_zombie
become_zombie_lem k me j h ne =
    let ps = reparent k.initproc me k.procs in
    let c = chan_of (entry ps me).parent in
    let ps' = wakeup me c ps in
    let z = record (entry ps' me) { xstate = 0; state = zombie } in
    ground (
      arith,
      length-reparent k.initproc me k.procs,
      length-wakeup me c ps,
      get_or-set_self ps' me z null_proc,
      get_or-set_ne ps' me j z null_proc,
      parent-wakeup me c ps j,
      parent-wakeup me c ps me,
      parent-reparent k.initproc me k.procs j,
      parent-reparent k.initproc me k.procs me,
    )

-- The wakeup of exit is not lost: a parent that sleeps on its own channel, as wait and waitall do, is
-- RUNNABLE once its child is a ZOMBIE, and is still the parent of that child.
pub become_zombie_wakes :
    {Mem : Type 0} (k : Kernel Mem) (me par : ℕ)
    → me < length k.procs
    → (proc_at k me).parent ≡ some par
    → par ≢ me
    → IsWaiting par (proc_at k par)
    → let k' = become_zombie k me in
      ((proc_at k' par).state ≡ runnable) × ((proc_at k' me).parent ≡ some par)
unfolding become_zombie wake_one
become_zombie_wakes k me par h e ne w =
    let ps = reparent k.initproc me k.procs in
    let c = chan_of (entry ps me).parent in
    let ps' = wakeup me c ps in
    let z = record (entry ps' me) { xstate = 0; state = zombie } in
    ground (
      arith,
      length-reparent k.initproc me k.procs,
      length-wakeup me c ps,
      get_or-set_self ps' me z null_proc,
      get_or-set_ne ps' me par z null_proc,
      wakeup-get me c par ps,
      parent-wakeup me c ps me,
      parent-reparent k.initproc me k.procs me,
      reparent-IsWaiting k.initproc me k.procs par w,
      same_chan_refl (proc_chan par),
    )

-- What process `me` keeps while exit closes its files: its entry, but for the file table; and the table
-- keeps its length.
pub record Keeps {Mem : Type 0} (me : ℕ) (k k' : Kernel Mem) : Type 0 where
  pub self : proc_at k' me ≡ proc_at k me
  pub size : length k'.procs ≡ length k.procs
  pub init : k'.initproc ≡ k.initproc

module _ (m : Machine) where
  open m use {Mem, fileclose, iput_op}

  woken-Keeps : (me : ℕ) (k : Kernel Mem) (r : Mem × List Chan) → Keeps me k (woken m me k r)
  woken-Keeps me k (s, chans) = record {
    self = wake_all_self me chans k.procs;
    size = length-wake_all me chans k.procs;
    init = refl;
  }

  close_file-Keeps : (me f : ℕ) (k k' : Kernel Mem) → close_file m me f k ≡ ok k' → Keeps me k k'
  unfolding close_file
  close_file-Keeps me f k k' e = elim (Bool-cases (f == 0)) [
    | inl null ↦ ground arith
    | inr open_file ↦
        let (r, _, e') =
          >>=-eq-ok (fileclose f k.mem) (λ r. ok (woken m me k r)) (rw open_file at e) in
        subst (Keeps me k) (ok-injective e') (woken-Keeps me k r)
  ]

  pub close_files-Keeps :
      (me : ℕ) (fs : List ℕ) (k k' : Kernel Mem) → close_files m me fs k ≡ ok k' → Keeps me k k'
  unfolding close_files
  close_files-Keeps me [] k k' e = ground arith
  close_files-Keeps me (f ∷ fs) k k' e =
      let (k1, e1, e2) = >>=-eq-ok (close_file m me f k) (close_files m me fs) e in
      let a = close_file-Keeps me f k k1 e1 in
      let b = close_files-Keeps me fs k1 k' e2 in
      record { self = b.self ∙ a.self; size = b.size ∙ a.size; init = b.init ∙ a.init }

  drop_cwd-Keeps :
      (me : ℕ) (k k' : Kernel Mem)
      → me < length k.procs
      → drop_cwd m me k ≡ ok k'
      → (proc_at k' me ≡ record (proc_at k me) { cwd = 0 })
        × (length k'.procs ≡ length k.procs)
        × (k'.initproc ≡ k.initproc)
  unfolding drop_cwd
  drop_cwd-Keeps me k k' h e =
      let (r, _, e') =
        >>=-eq-ok (iput_op (proc_at k me).cwd k.mem)
          (λ r.
            ok (put_proc (woken m me k r) me (record (proc_at (woken m me k r) me) { cwd = 0 })))
          e in
      let w = woken-Keeps me k r in
      let q = record (proc_at (woken m me k r) me) { cwd = 0 } in
      ground (
        arith,
        e',
        w.self,
        w.size,
        length-set (woken m me k r).procs me q,
        get_or-set_self (woken m me k r).procs me q null_proc,
      )

become_zombie_self :
    {Mem : Type 0} (k : Kernel Mem) (me : ℕ)
    → me < length k.procs
    → orphan (proc_at (become_zombie k me) me)
      ≡ orphan (record (proc_at k me) { xstate = 0; state = zombie })
unfolding become_zombie
become_zombie_self k me h =
    let ps = reparent k.initproc me k.procs in
    let c = chan_of (entry ps me).parent in
    let ps' = wakeup me c ps in
    let z = record (entry ps' me) { xstate = 0; state = zombie } in
    ground (
      arith,
      length-reparent k.initproc me k.procs,
      length-wakeup me c ps,
      get_or-set_self ps' me z null_proc,
      wakeup-get me c me ps,
      orphan-reparent k.initproc me k.procs,
    )

-- An exit that goes through leaves the process a ZOMBIE of exit status 0 with no open file and no
-- directory, whose message is the argument of exit, cut to the buffer; its pid, its xstatus, its memory
-- and all else are as before, the parent apart.
pub exit_lem :
    (m : Machine) (k : Kernel m.Mem) (me : ℕ) (msg : List ℕ) (k' : Kernel m.Mem)
    → me < length k.procs
    → exit m k me msg ≡ ok k'
    → orphan (proc_at k' me)
      ≡ orphan (record (proc_at k me) {
        exit_msg = store_msg (proc_at k me).exit_msg msg;
        ofile = map (λ _. 0) (proc_at k me).ofile;
        cwd = 0;
        xstate = 0;
        state = zombie;
      })
unfolding exit
exit_lem m k me msg k' h e = elim (Bool-cases (points_to k.initproc me)) [
  | inl init ↦ cc (rw init at e)
  | inr other ↦
      let p = proc_at k me in
      let q = record p { exit_msg = store_msg p.exit_msg msg } in
      let k1 = put_proc k me q in
      let rest = λ (k2 : Kernel m.Mem).
        drop_cwd m me
          (put_proc k2 me (record (proc_at k2 me) { ofile = map (λ _. 0) (proc_at k2 me).ofile }))
        >>= λ k3. ok (become_zombie k3 me) in
      let (k2, e2, e3) = >>=-eq-ok (close_files m me p.ofile k1) rest (rw other at e) in
      let r = record (proc_at k2 me) { ofile = map (λ _. 0) (proc_at k2 me).ofile } in
      let (k3, e4, e5) =
        >>=-eq-ok (drop_cwd m me (put_proc k2 me r)) (λ k3. ok (become_zombie k3 me)) e3 in
      let s = close_files-Keeps m me p.ofile k1 k2 e2 in
      let size : me < length k2.procs = omega (arith, s.size, length-set k.procs me q) in
      let t =
        drop_cwd-Keeps m me (put_proc k2 me r) k3 (omega (arith, length-set k2.procs me r)) e4 in
      let self : proc_at k2 me ≡ q = s.self ∙ get_or-set_self k.procs me q null_proc h in
      let z = become_zombie_self k3 me (omega (arith, t.1, length-set k2.procs me r)) in
      ground (arith, ok-injective e5, z, t.0, self, get_or-set_self k2.procs me r null_proc size)
]
