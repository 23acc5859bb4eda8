-- ===== src/Spinlock/Nesting.antt =====
-- push_off and pop_off of kernel/spinlock.c, nested.
use operationg_systems.Prelude.{
  ℕ, zero, suc, ◌+◌, ◌-◌, ◌^◌, ◌≡◌, ◌<◌, ◌⊎◌, inr, refl, ap, ◌∙◌, false, ◌==◌, if◌then◌else◌, arith,
  Outcome, ok, ◌>>=◌,
}
use operationg_systems.Spinlock.{Cpu, push_off, pop_off}

abbrev pub pushes : ℕ → Cpu → Cpu
pushes zero c = c
pushes (suc n) c = pushes n (push_off c)

abbrev pub pops : ℕ → Cpu → Outcome Cpu
pops zero c = ok c
pops (suc n) c = pops n c >>= pop_off

pop_off-push_off :
    (c : Cpu)
    → c.noff < 2 ^ 31 - 1
    → (c.noff ≡ 0) ⊎ (c.interrupts ≡ false)
    → pop_off (push_off c)
      ≡ ok (record c { intena = if c.noff == 0 then c.interrupts else c.intena })
unfolding push_off pop_off
pop_off-push_off c h s = ground (arith, s)

push_off-interrupts : (c : Cpu) → (push_off c).interrupts ≡ false
unfolding push_off
push_off-interrupts c = refl

push_off-noff : (c : Cpu) → c.noff + 1 < 2 ^ 31 → 0 < (push_off c).noff
unfolding push_off
push_off-noff c h = omega arith

push_off-room : (c : Cpu) (n : ℕ) → c.noff + suc n < 2 ^ 31 → (push_off c).noff + n < 2 ^ 31
unfolding push_off
push_off-room c n h = omega arith

interrupts-pushes : (n : ℕ) (c : Cpu) → c.interrupts ≡ false → (pushes n c).interrupts ≡ false
interrupts-pushes zero c s = s
interrupts-pushes (suc n) c s = interrupts-pushes n (push_off c) (push_off-interrupts c)

-- n pops undo n pushes where interrupts are off and stay off.
nested :
    (n : ℕ) (c : Cpu)
    → 0 < c.noff
    → c.noff + n < 2 ^ 31
    → c.interrupts ≡ false
    → pops n (pushes n c) ≡ ok c
nested zero c h b s = refl
nested (suc n) c h b s =
    ap (λ r. r >>= pop_off)
      (nested n (push_off c) (push_off-noff c (omega arith)) (push_off-room c n b)
        (push_off-interrupts c))
    ∙ pop_off-push_off c (omega arith) (inr s)
    ∙ ground (arith, h)

-- Whatever state the interrupts are in when a nest of push_off begins, n + 1 pop_offs bring it back, and
-- none of them panics; so it takes as many pop_offs as there were push_offs, and interrupts that were off
-- stay off. The nest may begin inside another one, where interrupts are off.
pops-pushes :
    (n : ℕ) (c : Cpu)
    → c.noff + n < 2 ^ 31 - 1
    → (c.noff ≡ 0) ⊎ (c.interrupts ≡ false)
    → (pops (suc n) (pushes (suc n) c)
        ≡ ok (record c { intena = if c.noff == 0 then c.interrupts else c.intena }))
      × ((pushes (suc n) c).interrupts ≡ false)
pops-pushes n c b s = (
  ap (λ r. r >>= pop_off)
        (nested n (push_off c) (push_off-noff c (omega arith)) (push_off-room c n (omega arith))
          (push_off-interrupts c))
      ∙ pop_off-push_off c (omega arith) s,
  interrupts-pushes n (push_off c) (push_off-interrupts c),
)
