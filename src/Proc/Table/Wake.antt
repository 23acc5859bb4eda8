-- ===== src/Proc/Table/Wake.antt =====
-- What wakeup and kill of kernel/proc.c do to each entry of the table.
use operationg_systems.Prelude.{
  ℕ, zero, suc, ◌+◌, ◌≡◌, ◌≢◌, ◌<◌, refl, ap, sym, List, [], ◌∷◌, true, false, ◌==◌, if◌then◌else◌,
  arith, length, set, ◌↔◌, ◌⊎◌, inl, inr, ==_refl, subst, Bool-cases, first_or_none, ==_iff,
}
use operationg_systems.Proc.Types.{
  Proc, ProcState, sleeping, runnable, same_state, Chan, same_chan, entry, null_proc, int_neg,
}
use operationg_systems.Proc.Table.{wake_one, wake_from, wakeup, kill_one, kill}

pub same_state_iff : (a b : ProcState) → (same_state a b ≡ true) ↔ (a ≡ b)
unfolding same_state
same_state_iff a b = ground arith

pub same_chan_refl : (c : Chan) → same_chan c c ≡ true
unfolding same_chan
same_chan_refl c = ground arith

pub same_chan-eq : (a b : Chan) → same_chan a b ≡ true → a ≡ b
unfolding same_chan
same_chan-eq a b = ground arith

length-wake_from :
    (me : ℕ) (c : Chan) (i : ℕ) (ps : List Proc) → length (wake_from me c i ps) ≡ length ps
unfolding wake_from
length-wake_from me c i [] = refl
length-wake_from me c i (p ∷ ps) = ap suc (length-wake_from me c (i + 1) ps)

pub length-wakeup : (me : ℕ) (c : Chan) (ps : List Proc) → length (wakeup me c ps) ≡ length ps
unfolding wakeup
length-wakeup me c ps = length-wake_from me c 0 ps

wake_from-get :
    (me : ℕ) (c : Chan) (i j : ℕ) (ps : List Proc)
    → entry (wake_from me c i ps) j ≡ (if i + j == me then entry ps j else wake_one c (entry ps j))
unfolding wake_from wake_one
wake_from-get me c i j [] = ground arith
wake_from-get me c i zero (p ∷ ps) = ground arith
wake_from-get me c i (suc j) (p ∷ ps) = ground (arith, wake_from-get me c (i + 1) j ps)

pub wakeup-get :
    (me : ℕ) (c : Chan) (j : ℕ) (ps : List Proc)
    → entry (wakeup me c ps) j ≡ (if j == me then entry ps j else wake_one c (entry ps j))
unfolding wakeup
wakeup-get me c j ps = ground (arith, wake_from-get me c 0 j ps)

wake_one-hit :
    (c : Chan) (p : Proc)
    → p.state ≡ sleeping
    → p.chan ≡ c
    → wake_one c p ≡ record p { state = runnable }
unfolding wake_one
wake_one-hit c p e f = ground (arith, same_chan_refl c)

wake_one-miss : (c : Chan) (p : Proc) → (p.state ≢ sleeping) ⊎ (p.chan ≢ c) → wake_one c p ≡ p
unfolding wake_one
wake_one-miss c p (inl ne) = ground (arith, same_state_iff p.state sleeping)
wake_one-miss c p (inr ne) = ground (arith, same_chan-eq p.chan c)

-- wakeup(chan), run by process `me`, makes a process RUNNABLE and changes nothing else of it if that is
-- not `me`, sleeps, and sleeps on that channel; else it leaves the process as it was.
wakeup_exact :
    (me : ℕ) (c : Chan) (j : ℕ) (ps : List Proc)
    → ((j ≢ me)
        × ((entry ps j).state ≡ sleeping)
        × ((entry ps j).chan ≡ c)
        × (entry (wakeup me c ps) j ≡ record (entry ps j) { state = runnable }))
      ⊎ (((j ≡ me) ⊎ ((entry ps j).state ≢ sleeping) ⊎ ((entry ps j).chan ≢ c))
          × (entry (wakeup me c ps) j ≡ entry ps j))
wakeup_exact me c j ps = elim (Bool-cases (j == me)) [
  | inl self ↦ inr (inl ((==_iff j me).0 self), rw (wakeup-get me c j ps, self) refl)
  | inr other ↦ elim (Bool-cases (same_state (entry ps j).state sleeping)) [
    | inr awake ↦
        let ne : (entry ps j).state ≢ sleeping =
          ground (arith, same_state_iff (entry ps j).state sleeping) in
        inr (inr (inl ne), rw (wakeup-get me c j ps, other) (wake_one-miss c (entry ps j) (inl ne)))
    | inl asleep ↦ elim (Bool-cases (same_chan (entry ps j).chan c)) [
      | inr off ↦
          let ne : (entry ps j).chan ≢ c = λ e.
            absurd
              (ground (arith, off, subst (λ d. same_chan d c ≡ true) (sym e) (same_chan_refl c))) in
          inr
            (inr (inr ne), rw (wakeup-get me c j ps, other) (wake_one-miss c (entry ps j) (inr ne)))
      | inl on ↦
          let e = (same_state_iff (entry ps j).state sleeping).0 asleep in
          let f = same_chan-eq (entry ps j).chan c on in
          inl (
            λ q. ground (arith, ==_refl me, q, other),
            e,
            f,
            rw (wakeup-get me c j ps, other) (wake_one-hit c (entry ps j) e f),
          )
    ]
  ]
]

kill_missing_at :
    (pid : ℕ) (ps : List Proc)
    → ((j : ℕ) → j < length ps → (entry ps j).pid ≢ pid)
    → kill pid ps ≡ (ps, int_neg 1)
unfolding kill
kill_missing_at pid [] none_has = refl
kill_missing_at pid (p ∷ ps) none_has =
    ground (arith, none_has 0, kill_missing_at pid ps (λ j h. none_has (suc j) (omega arith)))

kill_found_at :
    (pid : ℕ) (ps : List Proc) (i : ℕ)
    → (entry ps i).pid ≡ pid
    → i < length ps
    → ((j : ℕ) → j < i → (entry ps j).pid ≢ pid)
    → kill pid ps ≡ (set ps i (kill_one (entry ps i)), 0)
unfolding kill
kill_found_at pid [] i e h first = absurd (omega arith)
kill_found_at pid (p ∷ ps) zero e h first = ground arith
kill_found_at pid (p ∷ ps) (suc i) e h first =
    ground
      (arith, first 0, kill_found_at pid ps i e (omega arith) (λ j h. first (suc j) (omega arith)))

-- kill(pid) marks the first entry with that pid, makes it RUNNABLE if it slept, touches no other and
-- returns 0; or no entry has the pid, and it changes nothing and returns -1.
pub kill_exact :
    (pid : ℕ) (ps : List Proc)
    → ((i : ℕ) × (i < length ps)
        × ((entry ps i).pid ≡ pid)
        × ((j : ℕ) → j < i → (entry ps j).pid ≢ pid)
        × (kill pid ps ≡ (set ps i (kill_one (entry ps i)), 0))
        × ((kill_one (entry ps i)).killed ≡ 1)
        × ((kill_one (entry ps i)).state ≢ sleeping))
      ⊎ (((j : ℕ) → j < length ps → (entry ps j).pid ≢ pid) × (kill pid ps ≡ (ps, int_neg 1)))
unfolding kill_one
kill_exact pid ps = elim (first_or_none (λ p. p.pid == pid) ps null_proc) [
  | inl (i, h, hit, first) ↦
      let e = (==_iff (entry ps i).pid pid).0 hit in
      let out = λ (j : ℕ) (b : j < i). differ (entry ps j).pid pid (first j b) in
      inl (
        i,
        h,
        e,
        out,
        kill_found_at pid ps i e h out,
        ground arith,
        ground (arith, same_state_iff (entry ps i).state sleeping),
      )
  | inr none_is ↦
      let out = λ (j : ℕ) (b : j < length ps). differ (entry ps j).pid pid (none_is j b) in
      inr (out, kill_missing_at pid ps out)
]
  where
    differ : (a b : ℕ) → (a == b) ≡ false → a ≢ b
    differ a b h = ground (arith, h)
