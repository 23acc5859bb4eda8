-- ===== src/Proc/Exit/Returns.antt =====
-- exit of kernel/proc.c with the references of kernel/file.c: it runs to its end, and gives up what the
-- process holds. A pointer to a file is its index in the table and one, as 0 is NULL.
use operationg_systems.Prelude.{
  ℕ, zero, suc, ◌≡◌, ◌<◌, refl, ap, ◌∙◌, sym, subst, List, [], ◌∷◌, ◌++◌, true, false, ◌==◌,
  ==_refl, ok, panic, ◌⊎◌, inl, inr, Bool-cases, map, arith, ◌>>=◌, length, length-set,
  get_or-set_self,
}
use operationg_systems.File.{File, Release, fileclose}
use operationg_systems.File.Counted.{drop_one, IsCounted, fileclose-IsCounted}
use operationg_systems.Proc.Types.{Chan, Kernel, null_proc, proc_at, put_proc, points_to}
use operationg_systems.Proc.Machine.{Machine}
use operationg_systems.Proc.Exit.{
  woken, store_msg, close_file, close_files, drop_cwd, become_zombie, exit,
}
use operationg_systems.Proc.Exit.Zombie.{close_files-Keeps}

-- The part of a machine that exit calls, on the table of open files. `Sound ip` is what the release of a file
-- and iput need of the rest of the memory, with a reference to the inode ip. There fileclose does what
-- File.fileclose does to the table and comes back where that does not panic, and iput comes back.
pub record FileLayer (m : Machine) : Type 1 where
  pub table : m.Mem → List File
  pub Sound : ℕ → m.Mem → Type 0
  pub fileclose_lem :
      (ip f : ℕ) (s : m.Mem) (t : List File) (r : Release)
      → Sound ip s
      → fileclose (table s) f ≡ ok (t, r)
      → (out : m.Mem × List Chan) × (m.fileclose (suc f) s ≡ ok out)
        × (table out.0 ≡ t)
        × Sound ip out.0
  pub iput_lem :
      (ip : ℕ) (s : m.Mem)
      → Sound ip s
      → (out : m.Mem × List Chan) × (m.iput_op ip s ≡ ok out) × (table out.0 ≡ table s)

-- The files that pointers refer to.
abbrev pub held : List ℕ → List ℕ
held [] = []
held (zero ∷ fs) = held fs
held (suc f ∷ fs) = f ∷ held fs

module _ (m : Machine) (layer : FileLayer m) where
  -- fileclose of each pointer in fs gives up its reference, and no other.
  close_files-IsCounted :
      (me ip : ℕ) (fs others : List ℕ) (k : Kernel m.Mem)
      → layer.Sound ip k.mem
      → IsCounted (layer.table k.mem) (held fs ++ others)
      → (k' : Kernel m.Mem) × (close_files m me fs k ≡ ok k')
        × layer.Sound ip k'.mem
        × IsCounted (layer.table k'.mem) others
  unfolding close_files close_file
  close_files-IsCounted me ip [] others k sound c = (k, refl, sound, c)
  close_files-IsCounted me ip (zero ∷ fs) others k sound c =
      close_files-IsCounted me ip fs others k sound c
  close_files-IsCounted me ip (suc f ∷ fs) others k sound c =
      let hs = held fs ++ others in
      let d = fileclose-IsCounted (layer.table k.mem) (f ∷ hs) f c (ground (arith, ==_refl f)) in
      let (out, e, t, sound') = layer.fileclose_lem ip f k.mem d.0 d.1 sound d.2 in
      let gone : drop_one f (f ∷ hs) ≡ hs = rw (==_refl f) refl in
      let c' : IsCounted (layer.table out.0) hs =
        subst (λ l. IsCounted l hs) (sym t) (subst (IsCounted d.0) gone d.3) in
      let k1 = woken m me k out in
      let rest = close_files-IsCounted me ip fs others k1 sound' c' in
      let opened : suc f == 0 ≡ false = ground arith in
      let one : close_file m me (suc f) k ≡ ok k1 = rw (opened, e) refl in
      (rest.0, ap (λ o. o >>= close_files m me fs) one ∙ rest.1, rest.2, rest.3)

  -- exit of a process in the table whose pointers are counted, with those of `others`, on a memory that is
  -- sound for the release of files and for iput of its directory: initproc panics, and any other process runs to
  -- the end of exit, where the references to files are those of the others alone.
  pub exit_returns :
      (k : Kernel m.Mem) (me : ℕ) (msg others : List ℕ)
      → me < length k.procs
      → layer.Sound (proc_at k me).cwd k.mem
      → IsCounted (layer.table k.mem) (held (proc_at k me).ofile ++ others)
      → ((points_to k.initproc me ≡ true) × (exit m k me msg ≡ panic))
        ⊎ ((points_to k.initproc me ≡ false)
            × ((k' : Kernel m.Mem) × (exit m k me msg ≡ ok k')
                × IsCounted (layer.table k'.mem) others))
  unfolding exit drop_cwd become_zombie
  exit_returns k me msg others inside sound c = elim (Bool-cases (points_to k.initproc me)) [
    | inl init ↦ inl (init, rw init refl)
    | inr other ↦
        let p = proc_at k me in
        let q = record p { exit_msg = store_msg p.exit_msg msg } in
        let k1 = put_proc k me q in
        let (k2, e, sound2, c2) = close_files-IsCounted me p.cwd p.ofile others k1 sound c in
        let kept = close_files-Keeps m me p.ofile k1 k2 e in
        let r = record (proc_at k2 me) { ofile = map (λ _. 0) (proc_at k2 me).ofile } in
        let k3 = put_proc k2 me r in
        let low : me < length k2.procs =
          omega (arith, kept.size, length-set k.procs me q, inside) in
        let cwd : (proc_at k3 me).cwd ≡ p.cwd =
          ap (λ x. x.cwd) (get_or-set_self k2.procs me r null_proc low)
          ∙ ap (λ x. x.cwd) kept.self
          ∙ ap (λ x. x.cwd) (get_or-set_self k.procs me q null_proc inside) in
        let (out, d, same) = layer.iput_lem p.cwd k2.mem sound2 in
        let d' : m.iput_op (proc_at k3 me).cwd k3.mem ≡ ok out =
          ap (λ ip. m.iput_op ip k2.mem) cwd ∙ d in
        inr (other, rw (other, e, d') (_, refl, subst (λ l. IsCounted l others) (sym same) c2))
  ]
