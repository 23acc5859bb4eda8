-- ===== src/File/Counted.antt =====
-- The reference counts of kernel/file.c against those who hold a file.
use operationg_systems.Prelude.{
  ℕ, zero, suc, ◌+◌, ◌-◌, ◌%◌, ◌^◌, ◌≡◌, ◌≢◌, ◌<◌, inl, inr, refl, ap, ◌∙◌, sym, subst, arith, List,
  [], ◌∷◌, true, false, not, ◌==◌, ==_iff, ==_refl, if◌then◌else◌, Option, none, some, set,
  replicate, get_or-set_self, get_or-set_ne, length, ok, Bool-cases,
}
use operationg_systems.File.{
  File, fd_none, null_file, file_at, free_file, taken_file, filealloc, below_one, filedup, Release,
  nothing, release_of, drop_ref, fileclose, ftable,
}

-- A file is held once for each descriptor or other pointer to it.
abbrev pub count : ℕ → List ℕ → ℕ
count f [] = 0
count f (h ∷ holders) = (if h == f then 1 else 0) + count f holders

abbrev pub drop_one : ℕ → List ℕ → List ℕ
drop_one f [] = []
drop_one f (h ∷ holders) = let rest = drop_one f holders in if h == f then holders else h ∷ rest

-- ref is the number of those who hold the file, and a file that nobody holds has no type.
pub record IsCounted (files : List File) (holders : List ℕ) : Type 0 where
  pub exact : (f : ℕ) → (file_at files f).ref ≡ count f holders
  pub untyped : (f : ℕ) → count f holders ≡ 0 → (file_at files f).type ≡ fd_none
  pub bounded : (f : ℕ) → count f holders < 2 ^ 31

in_range : (files : List File) (f : ℕ) → (file_at files f).ref ≢ 0 → f < length files
in_range [] f h = absurd (h refl)
in_range (x ∷ files) zero h = omega arith
in_range (x ∷ files) (suc f) h = omega (arith, in_range files f h)

file_at-set :
    (files : List File) (f i : ℕ) (x : File)
    → f < length files
    → file_at (set files f x) i ≡ (if f == i then x else file_at files i)
file_at-set files f i x h = elim (Bool-cases (f == i)) [
  | inl same ↦ rw same (
      subst (λ j. file_at (set files f x) j ≡ x) ((==_iff f i).0 same)
        (get_or-set_self files f x null_file h))
  | inr other ↦ rw other (get_or-set_ne files f i x null_file (λ e. ground (arith, other, e)))
]

pub count-drop_one :
    (f i : ℕ) (holders : List ℕ)
    → 0 < count f holders
    → count i (drop_one f holders) + (if f == i then 1 else 0) ≡ count i holders
count-drop_one f i [] h = absurd (omega arith)
count-drop_one f i (k ∷ holders) h = elim (Bool-cases (k == f)) [
  | inl same ↦ ground (arith, same)
  | inr other ↦ ground (arith, other, count-drop_one f i holders (ground (arith, other)))
]

-- A write to one file that keeps the counts.
pub set-IsCounted :
    (files : List File) (holders holders' : List ℕ) (f : ℕ) (x : File)
    → IsCounted files holders
    → f < length files
    → x.ref ≡ count f holders'
    → (count f holders' ≡ 0 → x.type ≡ fd_none)
    → count f holders' < 2 ^ 31
    → ((i : ℕ) → (f == i) ≡ false → count i holders' ≡ count i holders)
    → IsCounted (set files f x) holders'
set-IsCounted files holders holders' f x c h r t b same = record {
  exact = λ i. elim (Bool-cases (f == i)) [
    | inl here ↦ at i here (λ j y. y.ref ≡ count j holders') r
    | inr other ↦ ap (λ y. y.ref) (away i other) ∙ c.exact i ∙ sym (same i other)
  ];
  untyped = λ i. elim (Bool-cases (f == i)) [
    | inl here ↦ at i here (λ j y. count j holders' ≡ 0 → y.type ≡ fd_none) t
    | inr other ↦ λ e. ap (λ y. y.type) (away i other) ∙ c.untyped i (sym (same i other) ∙ e)
  ];
  bounded = λ i. elim (Bool-cases (f == i)) [
    | inl here ↦ subst (λ j. count j holders' < 2 ^ 31) ((==_iff f i).0 here) b
    | inr other ↦ omega (arith, same i other, c.bounded i)
  ];
}
  where
    away : (i : ℕ) → (f == i) ≡ false → file_at (set files f x) i ≡ file_at files i
    away i other = get_or-set_ne files f i x null_file (λ e. ground (arith, other, e))

    at :
        (i : ℕ)
        → (f == i) ≡ true
        → (P : ℕ → File → Type 0) → P f x
        → P i (file_at (set files f x) i)
    at i here P p =
        subst (λ j. P j (file_at (set files f x) j)) ((==_iff f i).0 here)
          (subst (P f) (sym (get_or-set_self files f x null_file h)) p)

-- filealloc finds a file in the table that has no reference, if there is one.
pub free_file-found :
    (k : ℕ) (files : List File) (f : ℕ)
    → free_file k files ≡ some f
    → (j : ℕ) × (f ≡ k + j) × (j < length files) × ((file_at files j).ref ≡ 0)
unfolding free_file
free_file-found k [] f h = absurd (cc)
free_file-found k (x ∷ files) f h = elim (Bool-cases (x.ref == 0)) [
  | inl free ↦ (0, ground (arith, free, h), omega arith, (==_iff x.ref 0).0 free)
  | inr taken ↦
      let (j, e, inside, free) = free_file-found (k + 1) files f (ground (arith, taken, h)) in
      (suc j, omega (arith, e), omega (arith, inside), free)
]

pub zeroed : (n f : ℕ) → file_at (replicate n null_file) f ≡ null_file
zeroed zero f = refl
zeroed (suc n) zero = refl
zeroed (suc n) (suc f) = zeroed n f

pub ftable-IsCounted : IsCounted ftable []
ftable-IsCounted = record {
  exact = λ f. ap (λ x. x.ref) (zeroed 100 f);
  untyped = λ f z. ap (λ x. x.type) (zeroed 100 f);
  bounded = λ f. omega arith;
}

pub held-in_range :
    (files : List File) (holders : List ℕ) (f : ℕ)
    → IsCounted files holders
    → 0 < count f holders
    → f < length files
held-in_range files holders f c h = in_range files f (λ e. omega (arith, e, c.exact f))

pub taken_file-IsCounted :
    (files files' : List File) (holders : List ℕ) (f : ℕ)
    → IsCounted files holders
    → filealloc files ≡ (some f, files')
    → IsCounted files' (f ∷ holders)
unfolding filealloc
taken_file-IsCounted files files' holders f c h = go (free_file 0 files) refl h
  where
    go :
        (o : Option ℕ)
        → free_file 0 files ≡ o
        → taken_file files o ≡ (some f, files')
        → IsCounted files' (f ∷ holders)
    go none e same = absurd (cc (ap (λ r. r.0) same))
    go (some g) e same =
        let (j, at, inside, free) = free_file-found 0 files g e in
        let g_f : g ≡ f = cc (ap (λ r. r.0) same) in
        let j_f : j ≡ f = omega (arith, at, g_f) in
        let none_holds : count f holders ≡ 0 =
          sym (c.exact f) ∙ subst (λ n. (file_at files n).ref ≡ 0) j_f free in
        subst (λ l. IsCounted l (f ∷ holders))
          (sym (ap (λ n. set files n (record (file_at files n) { ref = 1 })) g_f)
            ∙ ap (λ r. r.1) same)
          (set-IsCounted files holders (f ∷ holders) f (record (file_at files f) { ref = 1 }) c
            (subst (λ n. n < length files) j_f inside) (ground (arith, none_holds, ==_refl f))
            (λ z. absurd (ground (arith, z, ==_refl f))) (ground (arith, none_holds, ==_refl f))
            (λ i other. ground (arith, other)))

pub filedup-IsCounted :
    (files : List File) (holders : List ℕ) (f : ℕ)
    → IsCounted files holders
    → 0 < count f holders
    → count f holders + 1 < 2 ^ 31
    → (files' : List File) × (filedup files f ≡ ok files') × IsCounted files' (f ∷ holders)
unfolding filedup
filedup-IsCounted files holders f c held low =
    let x = file_at files f in
    let test : below_one x.ref ≡ false = ground (arith, c.exact f) in
    (
      set files f (record x { ref = (x.ref + 1) % 2 ^ 32 }),
      rw test refl,
      set-IsCounted files holders (f ∷ holders) f (record x { ref = (x.ref + 1) % 2 ^ 32 }) c
          (held-in_range files holders f c held) (ground (arith, c.exact f, ==_refl f))
          (λ e. absurd (ground (arith, e, ==_refl f))) (ground (arith, ==_refl f))
          (λ i other. ground (arith, other)),
    )

-- fileclose of a file that is held drops one reference, and calls for its release exactly at the last.
pub fileclose-IsCounted :
    (files : List File) (holders : List ℕ) (f : ℕ)
    → IsCounted files holders
    → 0 < count f holders
    → (files' : List File) × (r : Release) × (fileclose files f ≡ ok (files', r))
      × IsCounted files' (drop_one f holders)
      × (r ≡ (
          if count f holders == 1
          then release_of (file_at files f) (file_at files f).type
          else nothing))
unfolding fileclose drop_ref
fileclose-IsCounted files holders f c held = elim (Bool-cases (count f holders == 1)) [
  | inl last ↦
      let gone : count f (drop_one f holders) ≡ 0 = ground (arith, last, less f, ==_refl f) in
      (
        set files f (record x { ref = 0; type = fd_none }),
        release_of x x.type,
        rw test (rw (at_last last) refl),
        set-IsCounted files holders (drop_one f holders) f (record x { ref = 0; type = fd_none }) c
            inside (sym gone) (λ z. refl) (omega (arith, gone)) kept,
        rw last refl,
      )
  | inr more ↦
      let left : count f (drop_one f holders) + 1 ≡ count f holders =
        ground (arith, less f, ==_refl f) in
      (
        set files f (record x { ref = x.ref - 1 }),
        nothing,
        rw test (rw (before more) refl),
        set-IsCounted files holders (drop_one f holders) f (record x { ref = x.ref - 1 }) c inside
            (omega (arith, left, c.exact f)) (λ z. absurd (ground (arith, more, z, left)))
            (omega (arith, left, c.bounded f)) kept,
        rw more refl,
      )
]
  where
    x : File
    x = file_at files f

    inside : f < length files
    inside = held-in_range files holders f c held

    test : below_one x.ref ≡ false
    test = ground (arith, c.exact f, c.bounded f, held)

    less : (i : ℕ) → count i (drop_one f holders) + (if f == i then 1 else 0) ≡ count i holders
    less i = count-drop_one f i holders held

    kept : (i : ℕ) → (f == i) ≡ false → count i (drop_one f holders) ≡ count i holders
    kept i other = ground (arith, other, less i)

    at_last : (count f holders == 1) ≡ true → not (below_one (x.ref - 1)) ≡ false
    at_last last = ground (arith, last, c.exact f)

    before : (count f holders == 1) ≡ false → not (below_one (x.ref - 1)) ≡ true
    before more = ground (arith, more, held, c.exact f, c.bounded f)
