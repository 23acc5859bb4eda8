-- ===== src/File/Held.antt =====
-- Those who hold the files of kernel/file.c, and the calls that they make in any order.
use operationg_systems.Prelude.{
  ℕ, ◌+◌, ◌%◌, ◌^◌, ◌≡◌, ◌<◌, refl, ap, ◌∙◌, sym, subst, arith, List, [], ◌∷◌, false, ◌==◌,
  if◌then◌else◌, some, set, ok, ok-injective,
}
use operationg_systems.File.{
  File, file_at, filealloc, below_one, filedup, Release, nothing, release_of, fileclose, ftable,
}
use operationg_systems.File.Counted.{
  count, drop_one, IsCounted, set-IsCounted, taken_file-IsCounted, filedup-IsCounted,
  fileclose-IsCounted, ftable-IsCounted, held-in_range,
}

-- Who holds which file: a table, and those who hold its files.
abbrev pub Held : Type 0
Held = List File × List ℕ

-- The calls, as those who hold the files make them, in any order. Between two of them the holder of a file
-- may set its other fields.
pub data Step : Held → Held → Type 0 where
  opened :
      {files files' : List File} {holders : List ℕ} (f : ℕ)
      → filealloc files ≡ (some f, files')
      → Step (files, holders) (files', f ∷ holders)
  filled :
      {files : List File} {holders : List ℕ} (f : ℕ) (x : File)
      → 0 < count f holders
      → x.ref ≡ (file_at files f).ref
      → Step (files, holders) (set files f x, holders)
  dupped :
      {files files' : List File} {holders : List ℕ} (f : ℕ)
      → 0 < count f holders
      → count f holders + 1 < 2 ^ 31
      → filedup files f ≡ ok files'
      → Step (files, holders) (files', f ∷ holders)
  closed :
      {files files' : List File} {holders : List ℕ} {r : Release} (f : ℕ)
      → 0 < count f holders
      → fileclose files f ≡ ok (files', r)
      → Step (files, holders) (files', drop_one f holders)

pub data Reach : Held → Type 0 where
  boot : Reach (ftable, [])
  next : {s s' : Held} → Reach s → Step s s' → Reach s'

Step-IsCounted : {s s' : Held} → Step s s' → IsCounted s.0 s.1 → IsCounted s'.0 s'.1
Step-IsCounted (opened {files} {files'} {holders} f e) c =
    taken_file-IsCounted files files' holders f c e
Step-IsCounted (filled {files} {holders} f x held same) c =
    set-IsCounted files holders holders f x c (held-in_range files holders f c held)
      (same ∙ c.exact f) (λ z. absurd (omega arith)) (c.bounded f) (λ i other. refl)
Step-IsCounted (dupped {files} {files'} {holders} f held low e) c =
    let d = filedup-IsCounted files holders f c held low in
    subst (λ l. IsCounted l (f ∷ holders)) (ok-injective (sym d.1 ∙ e)) d.2
Step-IsCounted (closed {files} {files'} {holders} {r} f held e) c =
    let d = fileclose-IsCounted files holders f c held in
    subst (λ l. IsCounted l (drop_one f holders)) (ap (λ q. q.0) (ok-injective (sym d.2 ∙ e))) d.3

Reach-IsCounted : {s : Held} → Reach s → IsCounted s.0 s.1
Reach-IsCounted boot = ftable-IsCounted
Reach-IsCounted (next reach step) = Step-IsCounted step (Reach-IsCounted reach)

-- In every order of filealloc, filedup and fileclose from the boot on, in which no file is closed or
-- duplicated but by those who hold it and no file is held 2^31 times, ref is the number of those who hold the
-- file; fileclose of a held file does not panic, and calls pipeclose or iput, as the type of the file says,
-- exactly if nobody else holds it; and filedup of a held file does not panic.
pub held_files_lem :
    (files : List File) (holders : List ℕ) (f : ℕ)
    → Reach (files, holders)
    → 0 < count f holders
    → ((file_at files f).ref ≡ count f holders)
      × ((files' : List File) × (fileclose files f
            ≡ ok (
              files',
              if count f holders == 1
                  then release_of (file_at files f) (file_at files f).type
                  else nothing,
            )))
      × ((files' : List File) × (filedup files f ≡ ok files'))
unfolding filedup
held_files_lem files holders f reach held =
    let c = Reach-IsCounted reach in
    let d = fileclose-IsCounted files holders f c held in
    let x = file_at files f in
    let test : below_one x.ref ≡ false = ground (arith, c.exact f, c.bounded f, held) in
    (
      c.exact f,
      (d.0, d.2 ∙ ap (λ r. ok (d.0, r)) d.4),
      (set files f (record x { ref = (x.ref + 1) % 2 ^ 32 }), rw test refl),
    )
