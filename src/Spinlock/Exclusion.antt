-- ===== src/Spinlock/Exclusion.antt =====
-- acquire and release of kernel/spinlock.c on one lock, run by any number of cpus in any order.
use operationg_systems.Prelude.{
  ℕ, ◌≡◌, ◌≢◌, ◌↔◌, ◌⊎◌, inl, inr, refl, ap, Bool, true, false, ◌==◌, ==_iff, ==_refl,
  if◌then◌else◌, arith, Option, none, some, ok, Bool-cases,
}
use operationg_systems.Proc.Types.{points_to}
use operationg_systems.Spinlock.{
  Cpu, Spinlock, initlock, holding, enter_acquire, test_and_set, record_cpu, clear_cpu,
  lock_release,
}

-- Where a cpu is: outside, in the loop of acquire, behind the loop, in its critical section, or in release
-- with lk->cpu cleared.
pub data Place : Type 0 where
  outside spins taken critical leaving : Place

abbrev pub is_inside : Place → Bool
is_inside outside = false
is_inside spins = false
is_inside taken = true
is_inside critical = true
is_inside leaving = true

pub record System : Type 0 where
  pub lock : Spinlock
  pub places : ℕ → Place

abbrev pub move : (ℕ → Place) → ℕ → Place → ℕ → Place
move places i p j = if j == i then p else places j

-- One access of cpu `i` to the lock.
pub data Step (s : System) : System → Type 0 where
  enters :
      (i : ℕ) (c c' : Cpu)
      → s.places i ≡ outside
      → enter_acquire i s.lock c ≡ ok c'
      → Step s (record { lock = s.lock; places = move s.places i spins })
  fails :
      (i : ℕ)
      → s.places i ≡ spins
      → (test_and_set s.lock).1 ≡ true
      → Step s (record { lock = (test_and_set s.lock).0; places = s.places })
  takes :
      (i : ℕ)
      → s.places i ≡ spins
      → (test_and_set s.lock).1 ≡ false
      → Step s (record { lock = (test_and_set s.lock).0; places = move s.places i taken })
  records :
      (i : ℕ)
      → s.places i ≡ taken
      → Step s (record { lock = record_cpu i s.lock; places = move s.places i critical })
  clears :
      (i : ℕ) (lk : Spinlock)
      → s.places i ≡ critical
      → clear_cpu i s.lock ≡ ok lk
      → Step s (record { lock = lk; places = move s.places i leaving })
  unlocks :
      (i : ℕ)
      → s.places i ≡ leaving
      → Step s (record { lock = lock_release s.lock; places = move s.places i outside })

pub data Reach (s : System) : System → Type 0 where
  here : Reach s s
  next : {t u : System} → Reach s t → Step t u → Reach s u

record IsExclusive (s : System) : Type 0 where
  held : (i : ℕ) → is_inside (s.places i) ≡ true → s.lock.locked ≡ true
  one : (i j : ℕ) → is_inside (s.places i) ≡ true → is_inside (s.places j) ≡ true → i ≡ j
  owner : (i : ℕ) → s.places i ≡ critical → s.lock.cpu ≡ some i
  named : (i : ℕ) → s.lock.cpu ≡ some i → s.places i ≡ critical

-- A cpu that is inside, after one has moved to p.
at :
    (places : ℕ → Place) (i j : ℕ) (p : Place)
    → ((j ≡ i) × (move places i p j ≡ p)) ⊎ ((j ≢ i) × (move places i p j ≡ places j))
at places i j p = elim (Bool-cases (j == i)) [
  | inl same ↦ inl ((==_iff j i).0 same, ground (arith, same))
  | inr other ↦ inr (ground (arith, other), ground (arith, other))
]

Step-IsExclusive : {s t : System} → Step s t → IsExclusive s → IsExclusive t
unfolding test_and_set record_cpu clear_cpu lock_release holding
Step-IsExclusive {s} (enters i c c' e h) v = record {
  held = λ j b. ground (arith, at s.places i j spins, v.held j);
  one = λ j k b d. ground (arith, at s.places i j spins, at s.places i k spins, v.one j k);
  owner = λ j b. ground (arith, at s.places i j spins, v.owner j);
  named = λ j b. ground (arith, at s.places i j spins, v.named j);
}
Step-IsExclusive {s} (fails i e h) v = record {
  held = λ j b. refl;
  one = v.one;
  owner = v.owner;
  named = v.named;
}
Step-IsExclusive {s} (takes i e h) v = record {
  held = λ j b. refl;
  one = λ j k b d.
      ground (arith, at s.places i j taken, at s.places i k taken, v.held j, v.held k, h);
  owner = λ j b. ground (arith, at s.places i j taken, v.owner j);
  named = λ j b. ground (arith, at s.places i j taken, v.named j, e);
}
Step-IsExclusive {s} (records i e) v = record {
  held = λ j b. v.held i (rw e refl);
  one = λ j k b d. ground (
    arith,
    at s.places i j critical,
    at s.places i k critical,
    v.one j k,
    v.one i k,
    v.one j i,
    e,
  );
  owner = λ j b. ground (arith, at s.places i j critical, v.one i j, e);
  named = λ j b. ground (arith, at s.places i j critical);
}
Step-IsExclusive {s} (clears i lk e h) v = record {
  held = λ j b. ground (arith, h, v.held i, e);
  one = λ j k b d.
      ground (
        arith,
        at s.places i j leaving,
        at s.places i k leaving,
        v.one j k,
        v.one i k,
        v.one j i,
        e,
      );
  owner = λ j b. ground (arith, at s.places i j leaving, v.one i j, e);
  named = λ j b. ground (arith, h, b);
}
Step-IsExclusive {s} (unlocks i e) v = record {
  held = λ j b. ground (arith, at s.places i j outside, v.one i j, e);
  one = λ j k b d. ground (arith, at s.places i j outside, at s.places i k outside, v.one j k);
  owner = λ j b. ground (arith, at s.places i j outside, v.owner j);
  named = λ j b. ground (arith, at s.places i j outside, v.named j, e);
}

Reach-IsExclusive : {s t : System} → IsExclusive s → Reach s t → IsExclusive t
Reach-IsExclusive v here = v
Reach-IsExclusive v (next steps st) = Step-IsExclusive st (Reach-IsExclusive v steps)

-- the lock that initlock makes, with no cpu near it
abbrev pub fresh : System
fresh = record { lock = initlock; places = λ _. outside }

fresh-IsExclusive : IsExclusive fresh
unfolding initlock
fresh-IsExclusive = record {
  held = λ j b. cc;
  one = λ j k b d. cc;
  owner = λ j b. cc;
  named = λ j b. cc;
}

-- Two cpus are never in the critical section at once, over every interleaving of their accesses to a lock
-- that initlock has made.
pub mutual_exclusion :
    {t : System} (i j : ℕ) → Reach fresh t → t.places i ≡ critical → t.places j ≡ critical → i ≡ j
mutual_exclusion {t} i j steps a b =
    (Reach-IsExclusive fresh-IsExclusive steps).one i j (rw a refl) (rw b refl)

-- holding() tells, over every interleaving, whether the cpu is in its critical section: so neither the
-- test of acquire stops a cpu that is outside, nor that of release one that is inside.
holding_exact :
    {t : System} (i : ℕ) → Reach fresh t → (holding i t.lock ≡ true) ↔ (t.places i ≡ critical)
unfolding holding
holding_exact {t} i steps =
    let v = Reach-IsExclusive fresh-IsExclusive steps in
    (
      λ h. v.named i (pointed t.lock.cpu i (ground (arith, h))),
      λ e. rw (v.held i (rw e refl), v.owner i e) (==_refl i),
    )
  where
    pointed : (o : Option ℕ) (i : ℕ) → points_to o i ≡ true → o ≡ some i
    pointed none i h = cc
    pointed (some j) i h = ap some ((==_iff j i).0 h)
