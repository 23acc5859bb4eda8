-- ===== src/Sysfile/Descriptors.antt =====
-- The descriptors of a process against the counts of references of kernel/file.c.
use operationg_systems.Prelude.{
  ℕ, zero, suc, ◌+◌, ◌^◌, ◌≡◌, ◌<◌, ◌≤◌, refl, ap, sym, ◌∙◌, ◌⊎◌, inl, inr, List, [], ◌∷◌, ◌++◌,
  ◌||◌, ◌==◌, leb, if◌then◌else◌, Bool-cases, Option, none, some, get_or, set, length, length-set,
  length-append, Outcome, ok, ◌>>=◌, arith,
}
use operationg_systems.Proc.Types.{nofile}
use operationg_systems.File.{File, close_made}
use operationg_systems.File.Counted.{
  count, drop_one, count-drop_one, IsCounted, filedup-IsCounted, fileclose-IsCounted,
}
use operationg_systems.Sysfile.{
  Fds, opened_at, argfd, free_fd, put_fd, fdalloc, dup_at, dup_found, sys_dup, close_found,
  sys_close,
}

-- The files that descriptors hold.
abbrev pub held : List (Option ℕ) → List ℕ
held [] = []
held (none ∷ ofile) = held ofile
held (some f ∷ ofile) = f ∷ held ofile

-- The counts are right for the descriptors of a process and those who hold files else.
pub record IsOpen (others : List ℕ) (s : Fds) : Type 0 where
  pub size : length s.ofile ≡ nofile
  pub counts : IsCounted s.files.table (held s.ofile ++ others)

recounted :
    (files : List File) (hs hs' : List ℕ)
    → IsCounted files hs
    → ((i : ℕ) → count i hs' ≡ count i hs)
    → IsCounted files hs'
recounted files hs hs' c same = record {
  exact = λ i. c.exact i ∙ sym (same i);
  untyped = λ i e. c.untyped i (sym (same i) ∙ e);
  bounded = λ i. omega (arith, same i, c.bounded i);
}

filled_fd :
    (ofile : List (Option ℕ)) (fd f i : ℕ) (others : List ℕ)
    → fd < length ofile
    → get_or ofile fd none ≡ none
    → count i (held (set ofile fd (some f)) ++ others)
      ≡ (if f == i then 1 else 0) + count i (held ofile ++ others)
filled_fd [] fd f i others h e = absurd (omega (arith, h))
filled_fd (none ∷ ofile) zero f i others h e = refl
filled_fd (some g ∷ ofile) zero f i others h e = absurd (cc (e))
filled_fd (none ∷ ofile) (suc fd) f i others h e =
    filled_fd ofile fd f i others (omega (arith, h)) e
filled_fd (some g ∷ ofile) (suc fd) f i others h e =
    omega (arith, filled_fd ofile fd f i others (omega (arith, h)) e)

cleared_fd :
    (ofile : List (Option ℕ)) (fd f i : ℕ) (others : List ℕ)
    → get_or ofile fd none ≡ some f
    → count i (held (set ofile fd none) ++ others) + (if f == i then 1 else 0)
      ≡ count i (held ofile ++ others)
cleared_fd [] fd f i others e = absurd (cc (e))
cleared_fd (none ∷ ofile) zero f i others e = absurd (cc (e))
cleared_fd (some g ∷ ofile) zero f i others e =
    let same : g ≡ f = cc in omega (arith, ap {B = ℕ} (λ x. if x == i then 1 else 0) same)
cleared_fd (none ∷ ofile) (suc fd) f i others e = cleared_fd ofile fd f i others e
cleared_fd (some g ∷ ofile) (suc fd) f i others e = omega (arith, cleared_fd ofile fd f i others e)

count_le : (i : ℕ) (hs : List ℕ) → count i hs ≤ length hs
count_le i [] = omega arith
count_le i (h ∷ hs) = elim (Bool-cases (h == i)) [
  | inl same ↦ rw same (omega (arith, count_le i hs))
  | inr other ↦ rw other (omega (arith, count_le i hs))
]

length-held : (ofile : List (Option ℕ)) → length (held ofile) ≤ length ofile
length-held [] = omega arith
length-held (none ∷ ofile) = omega (arith, length-held ofile)
length-held (some f ∷ ofile) = omega (arith, length-held ofile)

-- fdalloc finds a descriptor that is free.
free_fd_lem :
    (k : ℕ) (ofile : List (Option ℕ))
    → (free_fd k ofile ≡ none)
      ⊎ ((j : ℕ) × (free_fd k ofile ≡ some (k + j))
          × (j < length ofile)
          × (get_or ofile j none ≡ none))
unfolding free_fd
free_fd_lem k [] = inl refl
free_fd_lem k (none ∷ ofile) = inr (0, ap (λ n. some n) (omega arith), omega arith, refl)
free_fd_lem k (some f ∷ ofile) = elim (free_fd_lem (k + 1) ofile) [
  | inl e ↦ inl e
  | inr (j, e, h, free) ↦ inr (suc j, e ∙ ap (λ n. some n) (omega arith), omega (arith, h), free)
]

argfd_lem :
    (fd : ℕ) (s : Fds)
    → (argfd fd s ≡ none)
      ⊎ ((f : ℕ) × (argfd fd s ≡ some (fd, f)) × (get_or s.ofile fd none ≡ some f))
unfolding argfd
argfd_lem fd s = elim (Bool-cases (leb (2 ^ 31) fd || leb nofile fd)) [
  | inl out ↦ inl (rw out refl)
  | inr inside ↦ rw inside (go (get_or s.ofile fd none))
]
  where
    go :
        (o : Option ℕ)
        → (opened_at fd o ≡ none) ⊎ ((f : ℕ) × (opened_at fd o ≡ some (fd, f)) × (o ≡ some f))
    go none = inl refl
    go (some f) = inr (f, refl, refl)

bounded_held :
    (s : Fds) (others : List ℕ) (i : ℕ)
    → IsOpen others s
    → count i (held s.ofile ++ others) ≤ nofile + length others
bounded_held s others i h = omega (
  arith,
  count_le i (held s.ofile ++ others),
  length-append (held s.ofile) others,
  length-held s.ofile,
  h.size,
)

-- A call that comes back: with -1 and nothing changed, or with a result.
abbrev Comes : List ℕ → Fds → Outcome (Option ℕ × Fds) → Type 0
Comes others s r =
    (v : Option ℕ) × (s' : Fds) × (r ≡ ok (v, s'))
    × IsOpen others s'
    × (((v ≡ none) × (s' ≡ s)) ⊎ ((n : ℕ) × (v ≡ some n)))

fdalloc_lem :
    (f : ℕ) (ofile : List (Option ℕ))
    → (fdalloc f ofile ≡ (none, ofile))
      ⊎ ((j : ℕ) × (fdalloc f ofile ≡ (some j, set ofile j (some f)))
          × (j < length ofile)
          × (get_or ofile j none ≡ none))
unfolding fdalloc
fdalloc_lem f ofile = elim (free_fd_lem 0 ofile) [
  | inl full ↦ inl (ap (λ o. put_fd f o ofile) full)
  | inr (j, found, inside, free) ↦
      let here : (0 + j) ≡ j = omega arith in
      inr (j, ap (λ o. put_fd f o ofile) (found ∙ ap (λ n. some n) here), inside, free)
]

is_self : (i : ℕ) → ◌≡◌ {A = ℕ} (if i == i then 1 else 0) 1
is_self i = ground arith

dup_found-Comes :
    (others : List ℕ) (s : Fds) (fd f : ℕ)
    → length others + 32 < 2 ^ 31
    → IsOpen others s
    → get_or s.ofile fd none ≡ some f
    → Comes others s (dup_found (some (fd, f)) s)
unfolding dup_found dup_at
dup_found-Comes others s fd f low h e = elim (fdalloc_lem f s.ofile) [
  | inl full ↦ (none, s, ap (λ o. dup_at f o s) full, h, inl (refl, refl))
  | inr (j, found, inside, free) ↦
      let hs = held s.ofile ++ others in
      let own : 0 < count f hs = omega (arith, cleared_fd s.ofile fd f f others e, is_self f) in
      let d =
        filedup-IsCounted s.files.table hs f h.counts own
          (omega (arith, low, bounded_held s others f h)) in
      (
        some j,
        record { ofile = set s.ofile j (some f); files = record s.files { table = d.0 } },
        ap (λ o. dup_at f o s) found
            ∙ ap
                (λ t. t >>= λ table. ok (
                  some j,
                  record {
                    ofile = set s.ofile j (some f);
                    files = record s.files { table = table };
                  },
                ))
                d.1,
        record {
          size = length-set s.ofile j (some f) ∙ h.size;
          counts =
              recounted d.0 (f ∷ hs) (held (set s.ofile j (some f)) ++ others) d.2
                (λ i. filled_fd s.ofile j f i others inside free);
        },
        inr (j, refl),
      )
]

sys_dup-Comes :
    (others : List ℕ) (s : Fds) (fd : ℕ)
    → length others + 32 < 2 ^ 31
    → IsOpen others s
    → Comes others s (sys_dup fd s)
unfolding sys_dup dup_found
sys_dup-Comes others s fd low h = elim (argfd_lem fd s) [
  | inl e ↦ (none, s, ap (λ o. dup_found o s) e, h, inl (refl, refl))
  | inr (f, e, open_here) ↦
      let d = dup_found-Comes others s fd f low h open_here in
      (d.0, d.1, ap (λ o. dup_found o s) e ∙ d.2, d.3, d.4)
]

sys_close-Comes :
    (others : List ℕ) (s : Fds) (fd : ℕ) → IsOpen others s → Comes others s (sys_close fd s)
unfolding sys_close close_found close_made
sys_close-Comes others s fd h = elim (argfd_lem fd s) [
  | inl e ↦ (none, s, ap (λ o. close_found o s) e, h, inl (refl, refl))
  | inr (f, e, open_here) ↦
      let hs = held s.ofile ++ others in
      let own : 0 < count f hs =
        omega (arith, cleared_fd s.ofile fd f f others open_here, is_self f) in
      let d = fileclose-IsCounted s.files.table hs f h.counts own in
      (
        some 0,
        record {
          ofile = set s.ofile fd none;
          files = record s.files { table = d.0; released = d.1 ∷ s.files.released };
        },
        ap (λ o. close_found o s) e
            ∙ ap
                (λ t.
                  t
                  >>= (λ r. ok (record s.files { table = r.0; released = r.1 ∷ s.files.released }))
                  >>= λ files. ok (some 0, record { ofile = set s.ofile fd none; files = files }))
                d.2,
        record {
          size = length-set s.ofile fd none ∙ h.size;
          counts = recounted d.0 (drop_one f hs) (held (set s.ofile fd none) ++ others) d.3 (λ i.
              omega (arith, cleared_fd s.ofile fd f i others open_here, count-drop_one f i hs own));
        },
        inr (0, refl),
      )
]

-- The calls of a process on its descriptors, one after the other, each with what it returns.
pub data FdCall : Type 0 where
  dup close : ℕ → FdCall

abbrev pub call : FdCall → Fds → Outcome (Option ℕ × Fds)
call (dup fd) s = sys_dup fd s
call (close fd) s = sys_close fd s

abbrev pub calls : List FdCall → Fds → Outcome Fds
calls [] s = ok s
calls (c ∷ cs) s = call c s >>= λ r. calls cs r.1

call-Comes :
    (others : List ℕ) (s : Fds) (c : FdCall)
    → length others + 32 < 2 ^ 31
    → IsOpen others s
    → Comes others s (call c s)
call-Comes others s (dup fd) low h = sys_dup-Comes others s fd low h
call-Comes others s (close fd) low h = sys_close-Comes others s fd h

-- However a process calls dup and close, with any arguments, no call panics, and ref of every file stays the
-- number of its descriptors for the file and of the pointers of others; a call that returns -1 has changed
-- nothing.
pub fd_calls_counted :
    (others : List ℕ) (s : Fds) (cs : List FdCall)
    → length others + 32 < 2 ^ 31
    → IsOpen others s
    → (s' : Fds) × (calls cs s ≡ ok s')
      × IsOpen others s'
      × ((c : FdCall)
          → (v : Option ℕ) × (t : Fds) × (call c s' ≡ ok (v, t))
            × (((v ≡ none) × (t ≡ s')) ⊎ ((n : ℕ) × (v ≡ some n))))
fd_calls_counted others s [] low h =
    (s, refl, h, λ c. let d = call-Comes others s c low h in (d.0, d.1, d.2, d.4))
fd_calls_counted others s (c ∷ cs) low h =
    let d = call-Comes others s c low h in
    let rest = fd_calls_counted others d.1 cs low d.3 in
    (rest.0, ap (λ r. r >>= λ r'. calls cs r'.1) d.2 ∙ rest.1, rest.2, rest.3)
