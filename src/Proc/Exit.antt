-- ===== src/Proc/Exit.antt =====
-- kernel/proc.c of Assignment1_2: exit, exit_num and exit_msg. They end in sched(), which does not come
-- back to a ZOMBIE: the result is the kernel at that point. fileclose and iput may sleep; each is taken as one
-- step, in which no other process runs.
pub mod Message
pub mod Returns
pub mod Zombie
use operationg_systems.Prelude.{
  ℕ, ◌-◌, List, [], ◌∷◌, map, ◌==◌, if◌then◌else◌, Outcome, ok, panic, ◌>>=◌, set, length,
}
use operationg_systems.Str.{strncpy}
use operationg_systems.Proc.Types.{
  Chan, Proc, ProcState, zombie, Kernel, entry, proc_at, put_proc, with_mem, points_to,
}
use operationg_systems.Proc.Machine.{Machine}
use operationg_systems.Proc.Table.{wakeup, wake_all, reparent, chan_of}

-- strncpy(p->exit_msg, msg, sizeof(p->exit_msg)); p->exit_msg[sizeof(p->exit_msg)-1] = 0;
unfoldable pub store_msg : List ℕ → List ℕ → List ℕ
store_msg buf msg = set (strncpy buf msg 32) 31 0

-- "exit_num" and "Goodbye World xv6", in bytes.
abbrev pub exit_num_text : List ℕ
exit_num_text = 0x65 ∷ 0x78 ∷ 0x69 ∷ 0x74 ∷ 0x5f ∷ 0x6e ∷ 0x75 ∷ 0x6d ∷ []

abbrev pub goodbye_text : List ℕ
goodbye_text =
    0x47 ∷ 0x6f ∷ 0x6f ∷ 0x64 ∷ 0x62 ∷ 0x79 ∷ 0x65 ∷ 0x20 ∷ 0x57 ∷ 0x6f ∷ 0x72 ∷ 0x6c ∷ 0x64 ∷ 0x20
    ∷ 0x78 ∷ 0x76 ∷ 0x36 ∷ []

-- The critical section of exit under wait_lock: reparent(p), wakeup(p->parent), and the last stores.
unfoldable pub become_zombie : {Mem : Type 0} → Kernel Mem → ℕ → Kernel Mem
become_zombie k me =
    let ps = reparent k.initproc me k.procs in
    let ps' = wakeup me (chan_of (entry ps me).parent) ps in
    record k { procs = set ps' me (record (entry ps' me) { xstate = 0; state = zombie }) }

module _ (m : Machine) where
  open m use {Mem, fileclose, iput_op}

  -- The kernel behind a call that wakes the sleepers on some channels.
  abbrev woken : ℕ → Kernel Mem → Mem × List Chan → Kernel Mem
  woken me k (s, chans) = record k { mem = s; procs = wake_all me chans k.procs }

  -- fileclose of one file pointer, if it is not NULL.
  close_file : ℕ → ℕ → Kernel Mem → Outcome (Kernel Mem)
  close_file me f k = if f == 0 then ok k else (fileclose f k.mem >>= λ r. ok (woken me k r))

  unfoldable pub close_files : ℕ → List ℕ → Kernel Mem → Outcome (Kernel Mem)
  unfolding close_file
  close_files me [] k = ok k
  close_files me (f ∷ fs) k = close_file me f k >>= close_files me fs

  -- exit from begin_op() to p->cwd = 0.
  drop_cwd : ℕ → Kernel Mem → Outcome (Kernel Mem)
  drop_cwd me k = do
    r ← iput_op (proc_at k me).cwd k.mem
    let k1 = woken me k r
    ok (put_proc k1 me (record (proc_at k1 me) { cwd = 0 }))

  unfoldable pub exit : Kernel Mem → ℕ → List ℕ → Outcome (Kernel Mem)
  unfolding close_files drop_cwd
  exit k me msg =
      let p = proc_at k me in
      let k1 = put_proc k me (record p { exit_msg = store_msg p.exit_msg msg }) in
      if points_to k.initproc me
      then panic
      else close_files me p.ofile k1 >>= λ k2.
          drop_cwd me
            (put_proc k2 me (record (proc_at k2 me) { ofile = map (λ _. 0) (proc_at k2 me).ofile }))
          >>= λ k3. ok (become_zombie k3 me)

  unfoldable pub exit_num : Kernel Mem → ℕ → ℕ → Outcome (Kernel Mem)
  exit_num k me status =
      exit (put_proc k me (record (proc_at k me) { xstatus = status })) me exit_num_text

  unfoldable pub exit_msg : Kernel Mem → ℕ → List ℕ → Outcome (Kernel Mem)
  exit_msg k me msg =
      let p = proc_at k me in
      exit (put_proc k me (record p { exit_msg = store_msg p.exit_msg msg })) me goodbye_text
