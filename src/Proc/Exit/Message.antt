-- ===== src/Proc/Exit/Message.antt =====
-- What exit_num and exit_msg of kernel/proc.c tell the parent.
use operationg_systems.Prelude.{
  ℕ, ◌≡◌, ◌<◌, List, ok, length, ap, replicate, ◌∙◌, set, length-set, get_or-set_self, arith, sym,
  refl,
}
use operationg_systems.Str.{strncpy}
use operationg_systems.Str.Laws.{strncpy-forgets, length-strncpy}
use operationg_systems.Proc.Types.{Kernel, zombie, proc_at, put_proc, null_proc}
use operationg_systems.Proc.Machine.{Machine}
use operationg_systems.Proc.Exit.{store_msg, exit_num, exit_msg, exit_num_text, goodbye_text}
use operationg_systems.Proc.Exit.Zombie.{exit_lem}

store_msg-forgets :
    (buf buf' msg : List ℕ)
    → length buf ≡ 32
    → length buf' ≡ 32
    → store_msg buf msg ≡ store_msg buf' msg
unfolding store_msg
store_msg-forgets buf buf' msg h h' =
    ap (λ b. set b 31 0)
      (ap (strncpy buf msg) (sym h)
        ∙ strncpy-forgets buf buf' msg (h ∙ sym h')
        ∙ ap (strncpy buf' msg) h')

length-store_msg : (buf msg : List ℕ) → length (store_msg buf msg) ≡ length buf
unfolding store_msg
length-store_msg buf msg = length-set (strncpy buf msg 32) 31 0 ∙ length-strncpy buf msg 32

-- exit_num(status) leaves the status in xstatus, where waitall looks, and 0 in xstate, where wait looks:
-- wait never sees the status.
pub exit_num_lem :
    (m : Machine) (k : Kernel m.Mem) (me status : ℕ) (k' : Kernel m.Mem)
    → me < length k.procs
    → exit_num m k me status ≡ ok k'
    → ((proc_at k' me).state ≡ zombie)
      × ((proc_at k' me).xstatus ≡ status)
      × ((proc_at k' me).xstate ≡ 0)
      × ((proc_at k' me).pid ≡ (proc_at k me).pid)
unfolding exit_num
exit_num_lem m k me status k' h e =
    let q = record (proc_at k me) { xstatus = status } in
    let x =
      exit_lem m (put_proc k me q) me exit_num_text k' (omega (arith, length-set k.procs me q)) e in
    let self = get_or-set_self k.procs me q null_proc h in
    (
      ap (λ p. p.state) x,
      ap (λ p. p.xstatus) x ∙ ap (λ p. p.xstatus) self,
      ap (λ p. p.xstate) x,
      ap (λ p. p.pid) x ∙ ap (λ p. p.pid) self,
    )

-- exit_msg(msg) loses the message: whatever msg is, the buffer then holds "Goodbye World xv6".
exit_msg_overwritten :
    (m : Machine) (k : Kernel m.Mem) (me : ℕ) (msg : List ℕ) (k' : Kernel m.Mem)
    → me < length k.procs
    → length (proc_at k me).exit_msg ≡ 32
    → exit_msg m k me msg ≡ ok k'
    → (proc_at k' me).exit_msg ≡ store_msg (replicate 32 0) goodbye_text
unfolding exit_msg
exit_msg_overwritten m k me msg k' h size e =
    let p = proc_at k me in
    let q = record p { exit_msg = store_msg p.exit_msg msg } in
    let x =
      exit_lem m (put_proc k me q) me goodbye_text k' (omega (arith, length-set k.procs me q)) e in
    let self = get_or-set_self k.procs me q null_proc h in
    ap (λ p. p.exit_msg) x
    ∙ ap (λ p. store_msg p.exit_msg goodbye_text) self
    ∙ store_msg-forgets q.exit_msg (replicate 32 0) goodbye_text
        (length-store_msg p.exit_msg msg ∙ size) refl
