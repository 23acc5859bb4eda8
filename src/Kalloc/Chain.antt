-- ===== src/Kalloc/Chain.antt =====
-- kfree and kalloc of kernel/kalloc.c against the list of free pages.
use operationg_systems.Prelude.{
  ℕ, ◌%◌, ◌≡◌, ◌≢◌, ◌<◌, ◌≤◌, refl, sym, List, [], ◌∷◌, arith, ==_refl, ok, panic, ◌⊎◌,
}
use operationg_systems.Kalloc.{Kmem, phystop, store, fill, bad_page, kfree, kalloc}

-- a page that the allocator may hand out
pub record IsPage (end pa : ℕ) : Type 0 where
  pub aligned : pa % 4096 ≡ 0
  pub above : end ≤ pa
  pub below : pa < phystop

abbrev pub NotIn : ℕ → List ℕ → Type 0
NotIn x [] = Unit {0}
NotIn x (y ∷ ys) = (x ≢ y) × NotIn x ys

-- The words link the pages of the list from p on, and each is a page that stands in it once.
abbrev pub IsChain : ℕ → (ℕ → ℕ) → ℕ → List ℕ → Type 0
IsChain end w p [] = p ≡ 0
IsChain end w p (x ∷ xs) = (p ≡ x) × (x ≢ 0) × IsPage end x × NotIn x xs × IsChain end w (w x) xs

-- the allocator holds exactly these free pages, in this order
abbrev pub Holds : ℕ → Kmem → List ℕ → Type 0
Holds end k pages = IsChain end k.word k.freelist pages

-- A write inside a page that is not on the list does not touch the list.
pub IsChain-frame :
    (end : ℕ) (w w' : ℕ → ℕ) (pa p : ℕ) (xs : List ℕ)
    → ((a : ℕ) → a % 4096 ≡ 0 → a ≢ pa → w' a ≡ w a)
    → NotIn pa xs
    → IsChain end w p xs
    → IsChain end w' p xs
IsChain-frame end w w' pa p [] same out c = c
IsChain-frame end w w' pa p (x ∷ xs) same (ne, out) (e, nz, pg, d, c) =
    let q = same x pg.aligned (λ f. ne (sym f)) in
    (e, nz, pg, d, rw q (IsChain-frame end w w' pa (w x) xs same out c))

-- kfree of a page in the allocator's range, which is not free yet, puts it at the head of the free list.
pub kfree-Holds :
    (end pa : ℕ) (k : Kmem) (pages : List ℕ)
    → 0 < end
    → IsPage end pa
    → NotIn pa pages
    → Holds end k pages
    → (k' : Kmem) × (kfree end k pa ≡ ok k') × Holds end k' (pa ∷ pages)
unfolding kfree bad_page
kfree-Holds end pa k pages pos pg out c =
    let w' = store (fill k.word pa 0x0101010101010101) pa k.freelist in
    (
      record { freelist = pa; word = w' },
      ground arith,
      (
        refl,
        omega arith,
        pg,
        out,
        IsChain-frame end k.word w' pa (w' pa) pages (λ a al ne. ground arith) out
            (rw (==_refl pa) c),
      ),
    )

-- kfree panics on every other address.
pub kfree-panic :
    (end pa : ℕ) (k : Kmem) → (pa % 4096 ≢ 0) ⊎ (pa < end) ⊎ (phystop ≤ pa) → kfree end k pa ≡ panic
unfolding kfree bad_page
kfree-panic end pa k h = ground arith

-- What kalloc returns for a free list of these pages.
abbrev pub Allocates : ℕ → Kmem → List ℕ → ℕ × Kmem → Type 0
Allocates end k [] r = r ≡ (0, k)
Allocates end k (x ∷ xs) r = (r.0 ≡ x) × IsPage end x × NotIn x xs × Holds end r.1 xs

-- kalloc takes the first page off the free list, or returns NULL and changes nothing if there is none;
-- the page that it returns is in range, and is not free any more.
pub kalloc-Holds :
    (end : ℕ) (k : Kmem) (pages : List ℕ) → Holds end k pages → Allocates end k pages (kalloc k)
unfolding kalloc
kalloc-Holds end k [] c = ground arith
kalloc-Holds end k (x ∷ xs) (e, nz, pg, out, c) =
    let w' = fill k.word k.freelist 0x0505050505050505 in
    let q : kalloc k ≡ (k.freelist, record { freelist = k.word k.freelist; word = w' }) =
      ground arith in
    rw q (
      e,
      pg,
      out,
      IsChain-frame end k.word w' x (k.word k.freelist) xs (λ a al ne. ground (arith, pg.aligned))
          out (rw e c),
    )
