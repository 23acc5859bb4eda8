-- ===== src/Log/Crash.antt =====
-- commit and recover_from_log of kernel/log.c: a crash at any write leaves all of a transaction or none.
use operationg_systems.Prelude.{
  ℕ, ◌+◌, ◌≡◌, ◌≢◌, ◌<◌, ◌≤◌, refl, ap, ◌∙◌, sym, [], true, false, ◌==◌, ltb, if◌then◌else◌, arith,
  ◌⊎◌, inl, inr, length, subst, Bool-cases,
}
use native.Mathlib.Nat.{le_refl}
use operationg_systems.Log.{
  Log, Block, Blocks, absorbed, fill_buf, bwrite, put_head, get_head, install_from, install_trans,
  read_head, write_head, recover_from_log, write_log, commit,
}
use operationg_systems.Log.Disk.{
  IsHome, Homes, Distinct, logged, pick, Copied, All, All-map, logged-same, logged-Copied,
  Copied-same, get_head-put_head, absorbed-home,
}
use operationg_systems.Log.Written.{
  SameOutside, Wrote, write_log_from-Wrote, write_log_from-All, Installed, Homes-sizes,
  install_from-Installed, install_from-All,
}

-- The log as it is after a crash that left the disk d: no buffer is cached and the header is not read.
abbrev pub crashed : Log → Blocks → Log
crashed l d = record l { disk = d; view = d; lh = [] }

-- What block x holds once the system has recovered from the disk d.
abbrev pub recovered : Log → Blocks → ℕ → Block
recovered l d x = (recover_from_log (crashed l d)).disk x

-- What block x holds when the transaction in the log is done.
abbrev pub committed : Log → ℕ → Block
committed l x = if absorbed x l.lh then l.view x else l.disk x

-- A log that may commit: its blocks are distinct, lie outside the log and fit into it, and the header on
-- the disk is empty.
pub record IsReady (l : Log) : Type 0 where
  pub homes : Homes l l.lh
  pub distinct : Distinct l.lh
  pub room : length l.lh < l.size
  pub clean : get_head (l.disk l.start) ≡ []

write_head-disk :
    (l : Log) (x : ℕ)
    → (write_head l).disk x ≡ (if x == l.start then put_head (l.view l.start) l.lh else l.disk x)
unfolding write_head fill_buf bwrite
write_head-disk l x = ground arith

-- Recovery puts the logged blocks in their places, for a header whose blocks are distinct and at home.
pub recovered-logged :
    (l : Log) (d : Blocks) (x : ℕ)
    → Homes l (get_head (d l.start))
    → Distinct (get_head (d l.start))
    → length (get_head (d l.start)) < l.size
    → IsHome l x
    → recovered l d x ≡ pick (logged d (l.start + 1) (get_head (d l.start)) x) (d x)
unfolding recover_from_log read_head install_trans
recovered-logged l d x homes distinct room home =
    let h = get_head (d l.start) in
    let l1 = read_head (crashed l d) in
    let i =
      install_from-Installed true 0 (l.start + 1) h l1 (omega arith)
        (Homes-sizes l l1 h refl refl homes) distinct (omega arith) in
    ground (arith, i.start, i.disk x)

-- A disk that is the old one but for the blocks of the log recovers to the old one.
abbrev pub AllOld : Log → Blocks → Type 0
AllOld l d = (x : ℕ) → IsHome l x → recovered l d x ≡ l.disk x

abbrev pub AllNew : Log → Blocks → Type 0
AllNew l d = (x : ℕ) → IsHome l x → recovered l d x ≡ committed l x

recovered_old :
    (l : Log) (d : Blocks)
    → IsReady l
    → SameOutside (l.start + 1) (l.start + 1 + length l.lh) l.disk d
    → AllOld l d
recovered_old l d v same x home =
    let h : get_head (d l.start) ≡ [] = ap get_head (same l.start (inl (omega arith))) ∙ v.clean in
    recovered-logged l d x (rw h tt) (rw h tt) (rw h (omega (arith, v.room))) home
    ∙ rw h (same x (omega (arith, v.room)))

-- A disk with the whole transaction in the log recovers to the new one, however far it is installed.
recovered_new :
    (l : Log) (d e : Blocks)
    → IsReady l
    → get_head (e l.start) ≡ l.lh
    → Copied e (l.start + 1) l.lh l.view
    → ((x : ℕ) → IsHome l x → e x ≡ l.disk x)
    → ((x : ℕ) → absorbed x l.lh ≡ false → d x ≡ e x)
    → AllNew l d
recovered_new l d e v head copied old same x home =
    let at_log : (y : ℕ) → l.start ≤ y → y < l.start + l.size → d y ≡ e y =
      λ y a b. same y (absorbed-home l l.lh y v.homes a b) in
    let h : get_head (d l.start) ≡ l.lh =
      ap get_head (at_log l.start (le_refl l.start) (omega (arith, v.room))) ∙ head in
    let c : Copied d (l.start + 1) l.lh l.view =
      Copied-same e d (l.start + 1) l.lh l.view
        (λ y a b. at_log y (omega arith) (omega (arith, v.room))) copied in
    recovered-logged l d x (rw h v.homes) (rw h v.distinct) (rw h v.room) home
    ∙ rw h (ground (arith, logged-Copied d (l.start + 1) l.lh l.view x c, same x, old x home))

-- The stages of commit, for a log that is ready, with no write behind it.
module _ (l : Log) (v : IsReady l) where
  abbrev fresh : Log
  fresh = record l { trace = [] }

  abbrev headed : Log
  headed = write_head (write_log fresh)

  abbrev installed : Log
  installed = install_trans false headed

  wrote : Wrote fresh (write_log fresh) (l.start + 1) l.lh
  unfolding write_log
  wrote =
      write_log_from-Wrote 0 (l.start + 1) l.lh fresh (omega arith)
        (Homes-sizes l fresh l.lh refl refl v.homes) (omega (arith, v.room))

  headed_fields : (headed.start ≡ l.start) × (headed.size ≡ l.size) × (headed.lh ≡ l.lh)
  unfolding write_head fill_buf bwrite
  headed_fields = (wrote.start, wrote.size, wrote.lh)

  headed_view : (x : ℕ) → x ≢ l.start → headed.view x ≡ (write_log fresh).view x
  unfolding write_head fill_buf bwrite
  headed_view x ne = ground (arith, wrote.start)

  headed_home : (x : ℕ) → IsHome l x → headed.disk x ≡ l.disk x
  headed_home x home =
      ground (arith, write_head-disk (write_log fresh) x, wrote.start, wrote.disk x, v.room)

  headed_head : get_head (headed.disk l.start) ≡ l.lh
  headed_head =
      ap get_head (ground (arith, write_head-disk (write_log fresh) l.start, wrote.start))
      ∙ get_head-put_head ((write_log fresh).view (write_log fresh).start) (write_log fresh).lh
      ∙ wrote.lh

  headed-Copied : Copied headed.disk (l.start + 1) l.lh l.view
  headed-Copied =
      Copied-same (write_log fresh).disk headed.disk (l.start + 1) l.lh l.view
        (λ y a b. ground (arith, write_head-disk (write_log fresh) y, wrote.start))
        wrote.disk_copied

  install : Installed headed installed (l.start + 1) l.lh
  unfolding install_trans
  install =
      subst (λ bs. Installed headed (install_from false 0 bs headed) (l.start + 1) l.lh)
        (sym headed_fields.2)
        (install_from-Installed false 0 (l.start + 1) l.lh headed (omega (arith, headed_fields.0))
          (Homes-sizes l headed l.lh headed_fields.0 headed_fields.1 v.homes) v.distinct
          (omega (arith, v.room, headed_fields.1)))

  installed_home : (x : ℕ) → IsHome l x → installed.disk x ≡ committed l x
  installed_home x home = ground (
    arith,
    install.disk x,
    logged-same headed.view (write_log fresh).view (l.start + 1) l.lh x
        (λ y a b. headed_view y (omega arith)),
    logged-Copied (write_log fresh).view (l.start + 1) l.lh l.view x wrote.view_copied,
    headed_home x home,
  )

  abbrev final : Log
  final = write_head (record installed { lh = [] })

  final_home : (x : ℕ) → IsHome l x → final.disk x ≡ committed l x
  final_home x home = ground (
    arith,
    write_head-disk (record installed { lh = [] }) x,
    install.start,
    headed_fields.0,
    installed_home x home,
    v.room,
  )

  final_head : get_head (final.disk l.start) ≡ []
  final_head =
      ap get_head (
        ground (
          arith,
          write_head-disk (record installed { lh = [] }) l.start,
          install.start,
          headed_fields.0,
        ))
      ∙ get_head-put_head (installed.view installed.start) []

  final_new : AllNew l final.disk
  final_new x home =
      recovered-logged l final.disk x (rw final_head tt) (rw final_head tt)
        (rw final_head (omega (arith, v.room))) home
      ∙ rw final_head (final_home x home)

  final_lh : final.lh ≡ []
  unfolding write_head fill_buf bwrite
  final_lh = refl

  abbrev Atomic : Blocks → Type 0
  Atomic d = AllOld l d ⊎ AllNew l d

  written_Atomic : All Atomic (write_log fresh).trace
  unfolding write_log
  written_Atomic =
      All-map (SameOutside (l.start + 1) (l.start + 1 + length l.lh) l.disk) Atomic
        (write_log fresh).trace (λ d same. inl (recovered_old l d v same))
        (write_log_from-All 0 l.lh fresh l.disk (l.start + 1 + length l.lh) (omega arith)
          (λ x out. refl) tt)

  headed_Atomic : All Atomic headed.trace
  unfolding write_head fill_buf bwrite
  headed_Atomic = (
    inr (
        recovered_new l headed.disk headed.disk v headed_head headed-Copied headed_home
          (λ x out. refl)),
    written_Atomic,
  )

  installed_Atomic : All Atomic installed.trace
  unfolding install_trans
  installed_Atomic =
      install_from-All false 0 headed.lh l.lh headed headed.disk Atomic
        (λ x out. rw headed_fields.2 out) (λ x out. refl)
        (λ c same. inr (recovered_new l c headed.disk v headed_head headed-Copied headed_home same))
        headed_Atomic

  final_Atomic : All Atomic final.trace
  unfolding write_head fill_buf bwrite
  final_Atomic = (inr final_new, installed_Atomic)

-- A transaction is atomic. Whatever write of commit a crash comes behind, the system recovers from the
-- disk to the state before the transaction in every block outside the log, or in every such block to the
-- state with all the logged blocks written.
pub commit_atomic :
    (l : Log)
    → IsReady l
    → All (λ d. AllOld l d ⊎ AllNew l d) (commit (record l { trace = [] })).trace
unfolding commit
commit_atomic l v = elim (Bool-cases (ltb 0 (length l.lh))) [
  | inl some_blocks ↦ rw some_blocks (final_Atomic l v)
  | inr no_blocks ↦ rw no_blocks tt
]

-- A commit writes every logged block to its place and leaves every other block x outside the log as it
-- was; the header on the disk and the one in memory are empty then.
commit_lem :
    (l : Log) (x : ℕ)
    → IsReady l
    → IsHome l x
    → let r = commit (record l { trace = [] }) in
      (r.disk x ≡ committed l x) × (get_head (r.disk l.start) ≡ []) × (r.lh ≡ [])
unfolding commit absorbed
commit_lem l x v home = elim (Bool-cases (ltb 0 (length l.lh))) [
  | inl some_blocks ↦ rw some_blocks (final_home l v x home, final_head l v, final_lh l v)
  | inr no_blocks ↦ let e : l.lh ≡ [] = ground arith in rw no_blocks (rw e refl, v.clean, e)
]
