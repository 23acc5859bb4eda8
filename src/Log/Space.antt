-- ===== src/Log/Space.antt =====
-- The space that begin_op of kernel/log.c reserves, over any interleaving of file system calls.
use operationg_systems.Prelude.{
  ℕ, zero, suc, ◌+◌, ◌*◌, ◌≡◌, ◌<◌, ◌≤◌, refl, ◌∙◌, List, [], ◌∷◌, ◌++◌, Bool, true, false, ltb,
  arith, inl, inr, length, get_or, set, length-append, length-set, ok, panic, Bool-cases,
}
use operationg_systems.Log.{
  Log, logsize, maxopblocks, absorbed, begin_op, end_op, end_commit, log_write, commit, write_head,
  install_trans, install_from, write_log, write_log_from, fill_buf, bwrite, bpin, bunpin,
}

-- The calls in progress, each with the number of blocks that it may still write.
pub record System : Type 0 where
  pub log : Log
  pub quotas : List ℕ

abbrev pub remove : List ℕ → ℕ → List ℕ
remove [] i = []
remove (q ∷ qs) zero = qs
remove (q ∷ qs) (suc i) = q ∷ remove qs i

-- One step: a call begins, with MAXOPBLOCKS blocks to write; the i-th call writes a block; it ends; the
-- last one commits. What sleeps or panics makes no step.
pub data Step : System → System → Type 0 where
  begins :
      {s : System} (l : Log)
      → begin_op s.log ≡ (l, true)
      → Step s (record { log = l; quotas = maxopblocks ∷ s.quotas })
  writes :
      {s : System} (l : Log) (i q b : ℕ)
      → get_or s.quotas i 0 ≡ suc q
      → log_write b s.log ≡ ok l
      → Step s (record { log = l; quotas = set s.quotas i q })
  ends :
      {s : System} (l : Log) (i : ℕ) (do_commit : Bool)
      → i < length s.quotas
      → end_op s.log ≡ ok (l, do_commit)
      → Step s (record { log = l; quotas = remove s.quotas i })
  commits :
      {s : System}
      → s.log.committing ≡ true
      → Step s (record { log = end_commit s.log; quotas = s.quotas })

pub data Reach (s : System) : System → Type 0 where
  here : Reach s s
  next : {t u : System} → Reach s t → Step t u → Reach s u

abbrev pub sum : List ℕ → ℕ
sum [] = 0
sum (q ∷ qs) = q + sum qs

abbrev pub AllAtMost : List ℕ → Type 0
AllAtMost [] = Unit {0}
AllAtMost (q ∷ qs) = (q ≤ 10) × AllAtMost qs

-- The header has room for all that the calls in progress may still write.
pub record IsReserved (s : System) : Type 0 where
  pub fits : length s.log.lh + sum s.quotas ≤ logsize
  pub counted : s.log.outstanding ≡ length s.quotas
  pub quota : AllAtMost s.quotas
  pub few : length s.quotas ≤ 3
  pub quiet : s.log.committing ≡ true → length s.quotas ≡ 0

sum-le : (qs : List ℕ) → AllAtMost qs → sum qs ≤ length qs * 10
sum-le [] a = omega arith
sum-le (q ∷ qs) a = omega (arith, sum-le qs a.1)

sum-set : (qs : List ℕ) (i q : ℕ) → get_or qs i 0 ≡ suc q → sum (set qs i q) + 1 ≡ sum qs
sum-set [] i q e = absurd (omega arith)
sum-set (x ∷ qs) zero q e = omega arith
sum-set (x ∷ qs) (suc i) q e = omega (arith, sum-set qs i q e)

AllAtMost-set :
    (qs : List ℕ) (i q : ℕ) → get_or qs i 0 ≡ suc q → AllAtMost qs → AllAtMost (set qs i q)
AllAtMost-set [] i q e a = tt
AllAtMost-set (x ∷ qs) zero q e a = (omega arith, a.1)
AllAtMost-set (x ∷ qs) (suc i) q e a = (a.0, AllAtMost-set qs i q e a.1)

length-remove : (qs : List ℕ) (i : ℕ) → i < length qs → length (remove qs i) + 1 ≡ length qs
length-remove [] i h = absurd (omega arith)
length-remove (x ∷ qs) zero h = omega arith
length-remove (x ∷ qs) (suc i) h = omega (arith, length-remove qs i (omega arith))

sum-remove : (qs : List ℕ) (i : ℕ) → sum (remove qs i) ≤ sum qs
sum-remove [] i = omega arith
sum-remove (x ∷ qs) zero = omega arith
sum-remove (x ∷ qs) (suc i) = omega (arith, sum-remove qs i)

AllAtMost-remove : (qs : List ℕ) (i : ℕ) → AllAtMost qs → AllAtMost (remove qs i)
AllAtMost-remove [] i a = tt
AllAtMost-remove (x ∷ qs) zero a = a.1
AllAtMost-remove (x ∷ qs) (suc i) a = (a.0, AllAtMost-remove qs i a.1)

outstanding-install :
    (r : Bool) (t : ℕ) (bs : List ℕ) (l : Log) → (install_from r t bs l).outstanding ≡ l.outstanding
unfolding install_from fill_buf bwrite bunpin
outstanding-install r t [] l = refl
outstanding-install true t (b ∷ bs) l = outstanding-install true (t + 1) bs _
outstanding-install false t (b ∷ bs) l = outstanding-install false (t + 1) bs _

outstanding-write :
    (t : ℕ) (bs : List ℕ) (l : Log) → (write_log_from t bs l).outstanding ≡ l.outstanding
unfolding write_log_from fill_buf bwrite
outstanding-write t [] l = refl
outstanding-write t (b ∷ bs) l = outstanding-write (t + 1) bs _

end_commit-lem :
    (l : Log)
    → ((end_commit l).lh ≡ [])
      × ((end_commit l).outstanding ≡ l.outstanding)
      × ((end_commit l).committing ≡ false)
unfolding end_commit commit write_head install_trans write_log fill_buf bwrite
end_commit-lem l = elim (Bool-cases (ltb 0 (length l.lh))) [
  | inl some_blocks ↦ rw some_blocks (
    refl,
    outstanding-install false 0 (write_head (write_log l)).lh (write_head (write_log l))
        ∙ outstanding-write 0 l.lh l,
    refl,
  )
  | inr no_blocks ↦ rw no_blocks (ground arith, refl, refl)
]

log_write-lem :
    (b : ℕ) (l l' : Log)
    → log_write b l ≡ ok l'
    → (length l'.lh ≤ length l.lh + 1)
      × (l'.outstanding ≡ l.outstanding)
      × (l'.committing ≡ l.committing)
unfolding log_write bpin
log_write-lem b l l' e = ground (arith, length-append l.lh (b ∷ []))

-- Every step keeps the reservation.
Step-IsReserved : {s t : System} → Step s t → IsReserved s → IsReserved t
unfolding begin_op end_op
Step-IsReserved {s} (begins l e) r = ground (arith, sum-le s.quotas r.quota)
Step-IsReserved {s} (writes l i q b e w) r = ground (
  arith,
  log_write-lem b s.log l w,
  sum-set s.quotas i q e,
  length-set s.quotas i q,
  AllAtMost-set s.quotas i q e r.quota,
)
Step-IsReserved {s} (ends l i c h e) r =
    ground (
      arith,
      length-remove s.quotas i h,
      sum-remove s.quotas i,
      AllAtMost-remove s.quotas i r.quota,
    )
Step-IsReserved {s} (commits e) r = ground (arith, end_commit-lem s.log)

pub Reach-IsReserved : {s t : System} → IsReserved s → Reach s t → IsReserved t
Reach-IsReserved r here = r
Reach-IsReserved r (next steps st) = Step-IsReserved st (Reach-IsReserved r steps)

-- A log that no call uses yet.
pub record IsIdle (s : System) : Type 0 where
  pub empty : s.log.lh ≡ []
  pub unused : s.log.outstanding ≡ 0
  pub calls : s.quotas ≡ []
  pub quiet : s.log.committing ≡ false

-- From an idle log on, over every interleaving of calls that write at most MAXOPBLOCKS blocks each, a
-- call that may still write does not panic in log_write, if the log has more than LOGSIZE blocks.
pub log_write_has_room :
    {s t : System} (i q b : ℕ)
    → IsIdle s
    → Reach s t
    → logsize < t.log.size
    → get_or t.quotas i 0 ≡ suc q
    → (l : Log) × (log_write b t.log ≡ ok l)
unfolding log_write bpin
log_write_has_room {s} {t} i q b idle steps room e =
    let r = Reach-IsReserved (reserved idle) steps in
    let positive = sum-set t.quotas i q e in
    let some_call : 1 ≤ length t.quotas = busy t.quotas i q e in
    elim (Bool-cases (absorbed b t.log.lh)) [
      | inl old ↦ (t.log, ground (arith, r, positive, some_call))
      | inr new ↦ (
        record (bpin b t.log) { lh = t.log.lh ++ b ∷ [] },
        ground (arith, r, positive, some_call),
      )
    ]
  where
    reserved : IsIdle s → IsReserved s
    reserved d = ground (arith, d.empty, d.calls, d.unused, d.quiet)

    busy : (qs : List ℕ) (i q : ℕ) → get_or qs i 0 ≡ suc q → 1 ≤ length qs
    busy [] i q e = absurd (omega arith)
    busy (x ∷ qs) i q e = omega arith

-- On the disks that mkfs makes the log has LOGSIZE blocks, one of them the header. There log_write
-- panics as soon as the header lists 29 blocks, whatever the call has reserved, also for a block that is
-- in the log already.
log_write_one_short :
    (b : ℕ) (l : Log) → l.size ≡ logsize → length l.lh ≡ 29 → log_write b l ≡ panic
unfolding log_write
log_write_one_short b l e n = ground arith
