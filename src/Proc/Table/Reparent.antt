-- ===== src/Proc/Table/Reparent.antt =====
-- What reparent of kernel/proc.c does to each entry of the table.
use operationg_systems.Prelude.{
  ℕ, zero, suc, ◌+◌, ◌≡◌, ◌<◌, refl, ap, ◌∙◌, List, [], ◌∷◌, ◌==◌, if◌then◌else◌, arith, length,
  set, ◌⊎◌, length-set, get_or-set_self, get_or-set_ne, get_or-past, Option, none, leb,
}
use operationg_systems.Proc.Types.{
  Chan, proc_chan, runnable, Proc, sleeping, entry, null_proc, points_to,
}
use operationg_systems.Proc.Table.{wake_one, wakeup, adopt_one, reparent_from, reparent, chan_of}
use operationg_systems.Proc.Table.Wake.{same_state_iff, wakeup-get, length-wakeup}

pub parent-wakeup :
    (me : ℕ) (c : Chan) (ps : List Proc) (j : ℕ)
    → (entry (wakeup me c ps) j).parent ≡ (entry ps j).parent
unfolding wake_one
parent-wakeup me c ps j = ground (arith, wakeup-get me c j ps)

-- the parent of an entry once reparent has passed it
abbrev pub adopted : Option ℕ → ℕ → Option ℕ → Option ℕ
adopted init me q = if points_to q me then init else q

length-adopt_one :
    (init : Option ℕ) (me i : ℕ) (ps : List Proc) → length (adopt_one init me i ps) ≡ length ps
unfolding adopt_one
length-adopt_one init me i ps =
    let qs = set ps i (record (entry ps i) { parent = init }) in
    ground (
      arith,
      length-wakeup me (chan_of init) qs,
      length-set ps i (record (entry ps i) { parent = init }),
    )

parent-adopt_one :
    (init : Option ℕ) (me i : ℕ) (ps : List Proc) (j : ℕ)
    → i < length ps
    → (entry (adopt_one init me i ps) j).parent
      ≡ (if i == j then adopted init me (entry ps j).parent else (entry ps j).parent)
unfolding adopt_one
parent-adopt_one init me i ps j h =
    let q = record (entry ps i) { parent = init } in
    ground (
      arith,
      parent-wakeup me (chan_of init) (set ps i q) j,
      get_or-set_self ps i q null_proc h,
      get_or-set_ne ps i j q null_proc,
    )

length-reparent_from :
    (init : Option ℕ) (me n i : ℕ) (ps : List Proc)
    → length (reparent_from init me n i ps) ≡ length ps
unfolding reparent_from
length-reparent_from init me zero i ps = refl
length-reparent_from init me (suc n) i ps =
    length-reparent_from init me n (i + 1) (adopt_one init me i ps) ∙ length-adopt_one init me i ps

pub length-reparent :
    (init : Option ℕ) (me : ℕ) (ps : List Proc) → length (reparent init me ps) ≡ length ps
unfolding reparent
length-reparent init me ps = length-reparent_from init me (length ps) 0 ps

parent-reparent_from :
    (init : Option ℕ) (me n i : ℕ) (ps : List Proc) (j : ℕ)
    → i + n ≡ length ps
    → (entry (reparent_from init me n i ps) j).parent
      ≡ (if leb i j then adopted init me (entry ps j).parent else (entry ps j).parent)
unfolding reparent_from
parent-reparent_from init me zero i ps j h = ground (arith, get_or-past ps j null_proc)
parent-reparent_from init me (suc n) i ps j h = ground (
  arith,
  parent-reparent_from init me n (i + 1) (adopt_one init me i ps) j,
  length-adopt_one init me i ps,
  parent-adopt_one init me i ps j,
)

-- After reparent(p) the parent of every process is what it was, but for the children of p, whose
-- parent is now initproc.
pub parent-reparent :
    (init : Option ℕ) (me : ℕ) (ps : List Proc) (j : ℕ)
    → (entry (reparent init me ps) j).parent
      ≡ (if points_to (entry ps j).parent me then init else (entry ps j).parent)
unfolding reparent
parent-reparent init me ps j = ground (arith, parent-reparent_from init me (length ps) 0 ps j)

-- a process but for its parent
abbrev pub orphan : Proc → Proc
orphan p = record p { parent = none }

orphan-set :
    (init : Option ℕ) (ps : List Proc) (i j : ℕ)
    → orphan (entry (set ps i (record (entry ps i) { parent = init })) j) ≡ orphan (entry ps j)
orphan-set init [] i j = refl
orphan-set init (p ∷ ps) zero zero = refl
orphan-set init (p ∷ ps) zero (suc j) = refl
orphan-set init (p ∷ ps) (suc i) zero = refl
orphan-set init (p ∷ ps) (suc i) (suc j) = orphan-set init ps i j

orphan-adopt_one :
    (init : Option ℕ) (me i : ℕ) (ps : List Proc)
    → orphan (entry (adopt_one init me i ps) me) ≡ orphan (entry ps me)
unfolding adopt_one
orphan-adopt_one init me i ps =
    let q = record (entry ps i) { parent = init } in
    ground (arith, wakeup-get me (chan_of init) me (set ps i q), orphan-set init ps i me)

orphan-reparent_from :
    (init : Option ℕ) (me n i : ℕ) (ps : List Proc)
    → orphan (entry (reparent_from init me n i ps) me) ≡ orphan (entry ps me)
unfolding reparent_from
orphan-reparent_from init me zero i ps = refl
orphan-reparent_from init me (suc n) i ps =
    orphan-reparent_from init me n (i + 1) (adopt_one init me i ps) ∙ orphan-adopt_one init me i ps

-- The process that runs reparent changes at most in its own parent.
pub orphan-reparent :
    (init : Option ℕ) (me : ℕ) (ps : List Proc)
    → orphan (entry (reparent init me ps) me) ≡ orphan (entry ps me)
unfolding reparent
orphan-reparent init me ps = orphan-reparent_from init me (length ps) 0 ps

-- A process that runs, or that sleeps in wait or waitall.
abbrev pub IsWaiting : ℕ → Proc → Type 0
IsWaiting j p = (p.state ≡ runnable) ⊎ ((p.state ≡ sleeping) × (p.chan ≡ proc_chan j))

pub wakeup-IsWaiting :
    (me : ℕ) (c : Chan) (ps : List Proc) (j : ℕ)
    → IsWaiting j (entry ps j)
    → IsWaiting j (entry (wakeup me c ps) j)
unfolding wake_one
wakeup-IsWaiting me c ps j w =
    ground (arith, wakeup-get me c j ps, same_state_iff (entry ps j).state sleeping)

state-set :
    (q : Option ℕ) (ps : List Proc) (i j : ℕ)
    → let ps' = set ps i (record (entry ps i) { parent = q }) in
      ((entry ps' j).state ≡ (entry ps j).state) × ((entry ps' j).chan ≡ (entry ps j).chan)
state-set q ps i j =
    (ap (λ p. p.state) (orphan-set q ps i j), ap (λ p. p.chan) (orphan-set q ps i j))

adopt_one-IsWaiting :
    (init : Option ℕ) (me i : ℕ) (ps : List Proc) (j : ℕ)
    → IsWaiting j (entry ps j)
    → IsWaiting j (entry (adopt_one init me i ps) j)
unfolding adopt_one
adopt_one-IsWaiting init me i ps j w =
    let qs = set ps i (record (entry ps i) { parent = init }) in
    ground (arith, state-set init ps i j, wakeup-IsWaiting me (chan_of init) qs j)

reparent_from-IsWaiting :
    (init : Option ℕ) (me n i : ℕ) (ps : List Proc) (j : ℕ)
    → IsWaiting j (entry ps j)
    → IsWaiting j (entry (reparent_from init me n i ps) j)
unfolding reparent_from
reparent_from-IsWaiting init me zero i ps j w = w
reparent_from-IsWaiting init me (suc n) i ps j w =
    reparent_from-IsWaiting init me n (i + 1) (adopt_one init me i ps) j
      (adopt_one-IsWaiting init me i ps j w)

pub reparent-IsWaiting :
    (init : Option ℕ) (me : ℕ) (ps : List Proc) (j : ℕ)
    → IsWaiting j (entry ps j)
    → IsWaiting j (entry (reparent init me ps) j)
unfolding reparent
reparent-IsWaiting init me ps j w = reparent_from-IsWaiting init me (length ps) 0 ps j w
