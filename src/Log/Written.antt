-- ===== src/Log/Written.antt =====
-- write_log and install_trans of kernel/log.c: what they leave on the disk, at every write.
use operationg_systems.Prelude.{
  ℕ, ◌+◌, ◌≡◌, ◌≢◌, ◌<◌, ◌≤◌, ◌∙◌, List, [], ◌∷◌, Bool, true, false, ◌==◌, if◌then◌else◌, arith,
  ◌⊎◌, inl, length,
}
use operationg_systems.Log.{
  Log, Blocks, absorbed, fill_buf, bwrite, bunpin, install_from, write_log_from,
}
use operationg_systems.Log.Disk.{
  IsHome, Homes, Distinct, logged, pick, Copied, All, logged-absent, logged-same,
}

-- equal outside the blocks from lo to hi
abbrev pub SameOutside : ℕ → ℕ → Blocks → Blocks → Type 0
SameOutside lo hi d e = (x : ℕ) → (x < lo) ⊎ (hi ≤ x) → e x ≡ d x

-- What the loop of write_log has done, from block s = start + tail + 1 of the log on.
pub record Wrote (l r : Log) (s : ℕ) (bs : List ℕ) : Type 0 where
  pub start : r.start ≡ l.start
  pub size : r.size ≡ l.size
  pub lh : r.lh ≡ l.lh
  pub disk : SameOutside s (s + length bs) l.disk r.disk
  pub view : SameOutside s (s + length bs) l.view r.view
  pub disk_copied : Copied r.disk s bs l.view
  pub view_copied : Copied r.view s bs l.view

Copied-views :
    (l : Log) (d : Blocks) (s : ℕ) (bs : List ℕ) (v w : Blocks)
    → Homes l bs
    → ((b : ℕ) → IsHome l b → v b ≡ w b)
    → Copied d s bs v
    → Copied d s bs w
Copied-views l d s [] v w h same c = tt
Copied-views l d s (b ∷ bs) v w h same c =
    (c.0 ∙ same b h.0, Copied-views l d (s + 1) bs v w h.1 same c.1)

pub write_log_from-Wrote :
    (tail s : ℕ) (bs : List ℕ) (l : Log)
    → s ≡ l.start + tail + 1
    → Homes l bs
    → tail + 1 + length bs ≤ l.size
    → Wrote l (write_log_from tail bs l) s bs
unfolding write_log_from
write_log_from-Wrote tail s [] l e h room = ground arith
write_log_from-Wrote tail s (b ∷ bs) l e h room =
    let l1 = bwrite (l.start + tail + 1) (fill_buf (l.start + tail + 1) (l.view b) l) in
    let w = write_log_from-Wrote (tail + 1) (s + 1) bs l1 (omega arith) h.1 (omega arith) in
    let disk_else : (x : ℕ) → x ≢ s → l1.disk x ≡ l.disk x = λ x ne. ground arith in
    let view_else : (x : ℕ) → x ≢ s → l1.view x ≡ l.view x = λ x ne. ground arith in
    let disk_here : l1.disk s ≡ l.view b = ground arith in
    let view_here : l1.view s ≡ l.view b = ground arith in
    let homes : (c : ℕ) → IsHome l c → l1.view c ≡ l.view c = λ c home. view_else c (omega arith) in
    record {
      start = w.start;
      size = w.size;
      lh = w.lh;
      disk = λ x out. w.disk x (omega arith) ∙ disk_else x (omega arith);
      view = λ x out. w.view x (omega arith) ∙ view_else x (omega arith);
      disk_copied = (
        w.disk s (inl (omega arith)) ∙ disk_here,
        Copied-views l _ (s + 1) bs l1.view l.view h.1 homes w.disk_copied,
      );
      view_copied = (
        w.view s (inl (omega arith)) ∙ view_here,
        Copied-views l _ (s + 1) bs l1.view l.view h.1 homes w.view_copied,
      );
    }

-- Every disk on the way differs from the first one in the blocks of the log alone.
pub write_log_from-All :
    (tail : ℕ) (bs : List ℕ) (l : Log) (d : Blocks) (hi : ℕ)
    → l.start + tail + 1 + length bs ≤ hi
    → SameOutside (l.start + 1) hi d l.disk
    → All (SameOutside (l.start + 1) hi d) l.trace
    → All (SameOutside (l.start + 1) hi d) (write_log_from tail bs l).trace
unfolding write_log_from
write_log_from-All tail [] l d hi room same a = a
write_log_from-All tail (b ∷ bs) l d hi room same a =
    let l1 = bwrite (l.start + tail + 1) (fill_buf (l.start + tail + 1) (l.view b) l) in
    let same1 : SameOutside (l.start + 1) hi d l1.disk = λ x out. ground (arith, same x out) in
    write_log_from-All (tail + 1) bs l1 d hi (omega arith) same1 (same1, a)

-- What the loop of install_trans has done, with the log from block s on.
pub record Installed (l r : Log) (s : ℕ) (bs : List ℕ) : Type 0 where
  pub start : r.start ≡ l.start
  pub lh : r.lh ≡ l.lh
  pub disk : (x : ℕ) → r.disk x ≡ pick (logged l.view s bs x) (l.disk x)
  pub view : (x : ℕ) → r.view x ≡ pick (logged l.view s bs x) (l.view x)

-- One round of install_trans.
install_one : Bool → ℕ → ℕ → Log → Log
unfolding fill_buf bwrite bunpin
install_one recovering s b l =
    let l1 = bwrite b (fill_buf b (l.view s) l) in if recovering then l1 else bunpin b l1

record InstalledOne (l r : Log) (s b : ℕ) : Type 0 where
  start : r.start ≡ l.start
  size : r.size ≡ l.size
  lh : r.lh ≡ l.lh
  disk : (x : ℕ) → r.disk x ≡ (if x == b then l.view s else l.disk x)
  view : (x : ℕ) → r.view x ≡ (if x == b then l.view s else l.view x)
  trace : r.trace ≡ r.disk ∷ l.trace

install_one-lem :
    (recovering : Bool) (s b : ℕ) (l : Log) → InstalledOne l (install_one recovering s b l) s b
unfolding install_one
install_one-lem true s b l = ground arith
install_one-lem false s b l = ground arith

pub Homes-sizes :
    (l r : Log) (bs : List ℕ) → r.start ≡ l.start → r.size ≡ l.size → Homes l bs → Homes r bs
Homes-sizes l r [] e f h = tt
Homes-sizes l r (b ∷ bs) e f h = (omega arith, Homes-sizes l r bs e f h.1)

pub install_from-Installed :
    (recovering : Bool) (tail s : ℕ) (bs : List ℕ) (l : Log)
    → s ≡ l.start + tail + 1
    → Homes l bs
    → Distinct bs
    → tail + 1 + length bs ≤ l.size
    → Installed l (install_from recovering tail bs l) s bs
unfolding install_from install_one
install_from-Installed recovering tail s [] l e h d room = ground arith
install_from-Installed recovering tail s (b ∷ bs) l e h d room =
    let l1 = install_one recovering (l.start + tail + 1) b l in
    let o = install_one-lem recovering (l.start + tail + 1) b l in
    let i =
      install_from-Installed recovering (tail + 1) (s + 1) bs l1 (omega (arith, o.start))
        (Homes-sizes l l1 bs o.start o.size h.1) d.1 (omega (arith, o.size)) in
    let same : (x : ℕ) → logged l1.view (s + 1) bs x ≡ logged l.view (s + 1) bs x =
      λ x. logged-same l1.view l.view (s + 1) bs x (λ y a c. ground (arith, o.view y, h.0)) in
    let none_b = logged-absent l.view (s + 1) bs b d.0 in
    record {
      start = i.start ∙ o.start;
      lh = i.lh ∙ o.lh;
      disk = λ x. ground (arith, i.disk x, same x, o.disk x, none_b, e);
      view = λ x. ground (arith, i.view x, same x, o.view x, none_b, e);
    }

-- Every disk on the way agrees with d outside the blocks that are installed.
pub install_from-All :
    (recovering : Bool) (tail : ℕ) (bs lh : List ℕ) (l : Log) (d : Blocks) (P : Blocks → Type 0)
    → ((x : ℕ) → absorbed x lh ≡ false → absorbed x bs ≡ false)
    → ((x : ℕ) → absorbed x lh ≡ false → l.disk x ≡ d x)
    → ((c : Blocks) → ((x : ℕ) → absorbed x lh ≡ false → c x ≡ d x) → P c)
    → All P l.trace
    → All P (install_from recovering tail bs l).trace
unfolding install_from absorbed install_one
install_from-All recovering tail [] lh l d P sub same keep a = a
install_from-All recovering tail (b ∷ bs) lh l d P sub same keep a =
    let l1 = install_one recovering (l.start + tail + 1) b l in
    let o = install_one-lem recovering (l.start + tail + 1) b l in
    let same1 : (x : ℕ) → absorbed x lh ≡ false → l1.disk x ≡ d x =
      λ x out. ground (arith, o.disk x, same x out, sub x out) in
    install_from-All recovering (tail + 1) bs lh l1 d P (λ x out. ground (arith, sub x out)) same1
      keep (rw o.trace (keep l1.disk same1, a))
