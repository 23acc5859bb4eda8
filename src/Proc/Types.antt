-- ===== src/Proc/Types.antt =====
-- The process table of kernel/proc.h and kernel/proc.c of Assignment1_2.
-- A `struct proc *` is the index of an entry of proc[NPROC], or none; an int is its 32-bit pattern; a
-- pointer to a page, a file or an inode is its address, 0 for NULL. The locks are left out: every
-- function is one critical section, or a sequence of them between the points where the code sleeps.
use operationg_systems.Prelude.{
  ℕ, ◌+◌, ◌-◌, ◌%◌, ◌^◌, List, Bool, true, false, ◌==◌, Option, none, some, ltb, get_or, set,
  replicate,
}

abbrev pub nproc : ℕ
nproc = 64

abbrev pub nofile : ℕ
nofile = 16

-- enum procstate
pub data ProcState : Type 0 where
  unused used sleeping runnable running zombie : ProcState

unfoldable pub same_state : ProcState → ProcState → Bool
same_state unused unused = true
same_state used used = true
same_state sleeping sleeping = true
same_state runnable runnable = true
same_state running running = true
same_state zombie zombie = true
same_state _ _ = false

-- What the kernel sleeps on: the addresses passed to sleep(), apart from one another.
pub data Chan : Type 0 where
  no_chan : Chan
  proc_chan : ℕ → Chan
  pipe_nread : ℕ → Chan
  pipe_nwrite : ℕ → Chan
  lock_chan : ℕ → Chan
  ticks_chan : Chan
  log_chan : Chan

unfoldable pub same_chan : Chan → Chan → Bool
same_chan no_chan no_chan = true
same_chan (proc_chan a) (proc_chan b) = a == b
same_chan (pipe_nread a) (pipe_nread b) = a == b
same_chan (pipe_nwrite a) (pipe_nwrite b) = a == b
same_chan (lock_chan a) (lock_chan b) = a == b
same_chan ticks_chan ticks_chan = true
same_chan log_chan log_chan = true
same_chan _ _ = false

-- struct trapframe: its page, and its 36 words in the order of the struct.
pub record Trapframe : Type 0 where
  pub page : ℕ
  pub regs : List ℕ

abbrev pub reg_epc : ℕ
reg_epc = 3

abbrev pub reg_sp : ℕ
reg_sp = 6

abbrev pub reg_a0 : ℕ
reg_a0 = 14

-- struct context, of which the code sets ra and sp and clears the rest.
pub record Context : Type 0 where
  pub ra : ℕ
  pub sp : ℕ
  pub saved : List ℕ

-- struct proc, without its lock.
pub record Proc : Type 0 where
  pub state : ProcState
  pub chan : Chan
  pub killed : ℕ
  pub xstate : ℕ
  pub pid : ℕ
  pub xstatus : ℕ
  pub parent : Option ℕ
  pub kstack : ℕ
  pub sz : ℕ
  pub pagetable : ℕ
  pub trapframe : Option Trapframe
  pub context : Context
  pub ofile : List ℕ
  pub cwd : ℕ
  pub name : List ℕ
  pub exit_msg : List ℕ

-- An entry as the boot loader leaves it: all zero.
abbrev pub null_proc : Proc
null_proc = record {
  state = unused;
  chan = no_chan;
  killed = 0;
  xstate = 0;
  pid = 0;
  xstatus = 0;
  parent = none;
  kstack = 0;
  sz = 0;
  pagetable = 0;
  trapframe = none;
  context = record { ra = 0; sp = 0; saved = replicate 12 0 };
  ofile = replicate 16 0;
  cwd = 0;
  name = replicate 16 0;
  exit_msg = replicate 32 0;
}

-- The variables of proc.c, and `mem`: all that its callees in other files own.
pub record Kernel (Mem : Type 0) : Type 0 where
  pub procs : List Proc
  pub nextpid : ℕ
  pub initproc : Option ℕ
  pub mem : Mem

-- The entry behind a `struct proc *`. Pointers lie in the table, so the default is never read.
abbrev pub entry : List Proc → ℕ → Proc
entry ps i = get_or ps i null_proc

module _ {Mem : Type 0} where
  abbrev pub proc_at : Kernel Mem → ℕ → Proc
  proc_at k i = entry k.procs i

  abbrev pub put_proc : Kernel Mem → ℕ → Proc → Kernel Mem
  put_proc k i p = record k { procs = set k.procs i p }

  abbrev pub with_mem : Kernel Mem → Mem → Kernel Mem
  with_mem k m = record k { mem = m }

-- `p == q` for a `struct proc *` q that may be NULL.
abbrev pub points_to : Option ℕ → ℕ → Bool
points_to none i = false
points_to (some j) i = j == i

-- -k as a 32-bit int
abbrev pub int_neg : ℕ → ℕ
int_neg k = 2 ^ 32 - k

-- a < b for two ints in 32 bits
abbrev pub int_lt : ℕ → ℕ → Bool
int_lt a b = ltb ((a + 2 ^ 31) % 2 ^ 32) ((b + 2 ^ 31) % 2 ^ 32)
