-- ===== src/Kalloc/Range.antt =====
-- freerange and kinit of kernel/kalloc.c: which pages are free when the kernel starts.
use operationg_systems.Prelude.{
  ℕ, zero, suc, ◌+◌, ◌-◌, ◌*◌, ◌/◌, ◌%◌, ◌≡◌, ◌<◌, ◌≤◌, ◌↔◌, refl, List, [], ◌∷◌, arith, ok, ◌⊎◌,
  inl, inr,
}
use native.Mathlib.Decide.{dec_lt}
use operationg_systems.Kalloc.{Kmem, pgsize, phystop, pgroundup, free_from, freerange, kinit}
use operationg_systems.Kalloc.Chain.{IsPage, NotIn, Holds, kfree-Holds}

-- the pages p, p + 4096, and so on, `n` of them, put in front of a list one by one
abbrev pub stacked : ℕ → ℕ → List ℕ → List ℕ
stacked zero p acc = acc
stacked (suc n) p acc = stacked n (p + 4096) (p ∷ acc)

abbrev pub In : ℕ → List ℕ → Type 0
In x [] = ⊥
In x (y ∷ ys) = (x ≡ y) ⊎ In x ys

abbrev AllBelow : ℕ → List ℕ → Type 0
AllBelow p [] = Unit {0}
AllBelow p (x ∷ xs) = (x < p) × AllBelow p xs

AllBelow-NotIn : (p : ℕ) (xs : List ℕ) → AllBelow p xs → NotIn p xs
AllBelow-NotIn p [] b = tt
AllBelow-NotIn p (x ∷ xs) b = (omega arith, AllBelow-NotIn p xs b.1)

AllBelow-mono : (p q : ℕ) (xs : List ℕ) → p ≤ q → AllBelow p xs → AllBelow q xs
AllBelow-mono p q [] h b = tt
AllBelow-mono p q (x ∷ xs) h b = (omega arith, AllBelow-mono p q xs h b.1)

free_from-Holds :
    (end pa_end fuel c p : ℕ) (k : Kmem) (pages : List ℕ)
    → c < fuel
    → 0 < end
    → p % 4096 ≡ 0
    → end ≤ p
    → pa_end ≤ phystop
    → p + c * 4096 ≤ pa_end
    → pa_end < p + c * 4096 + 4096
    → AllBelow p pages
    → Holds end k pages
    → (k' : Kmem) × (free_from end pa_end fuel p k ≡ ok k') × Holds end k' (stacked c p pages)
unfolding free_from
free_from-Holds end pa_end zero c p k pages fuel_left pos al lo top inside last below h =
    absurd (omega arith)
free_from-Holds end pa_end (suc fuel) zero p k pages fuel_left pos al lo top inside last below h =
    (k, ground arith, h)
free_from-Holds end pa_end (suc fuel) (suc c) p k pages fuel_left pos al lo top inside last below
      h =
    let (k1, e, h1) =
      kfree-Holds end p k pages pos (record { aligned = al; above = lo; below = omega arith })
        (AllBelow-NotIn p pages below) h in
    let (k2, e2, h2) =
      free_from-Holds end pa_end fuel c (p + 4096) k1 (p ∷ pages) (omega arith) pos (omega arith)
        (omega arith) top (omega arith) (omega arith)
        (omega arith, AllBelow-mono p (p + 4096) pages (omega arith) below) h1 in
    (k2, rw e (rw e2 (ground arith)), h2)

In-stacked :
    (n p x : ℕ) (acc : List ℕ)
    → p % 4096 ≡ 0
    → In x (stacked n p acc) ↔ (In x acc ⊎ ((x % 4096 ≡ 0) × (p ≤ x) × (x < p + n * 4096)))
In-stacked zero p x acc al = (λ i. inl i, elim [ inl i ↦ i | inr (a, b, c) ↦ absurd (omega arith) ])
In-stacked (suc n) p x acc al =
    let ih = In-stacked n (p + 4096) x (p ∷ acc) (omega arith) in
    (
      λ i. elim (ih.0 i) [
        | inl (inl e) ↦ inr (omega arith, omega arith, omega arith)
        | inl (inr j) ↦ inl j
        | inr (a, b, c) ↦ inr (a, omega arith, omega arith)
      ],
      λ i. ih.1 (elim i [
        | inl j ↦ inl (inr j)
        | inr (a, b, c) ↦ elim (dec_lt p x) [
          | yes lt ↦ inr (a, omega arith, omega arith)
          | no ge ↦ inl (inl (omega arith))
        ]
      ]),
    )

-- kinit, for a kernel that ends above 0 and below PHYSTOP, does not panic, and leaves on the free list
-- exactly the pages of the memory from the kernel's end to PHYSTOP: an address is on it if and only if
-- kfree accepts it, and IsChain says that none is on it twice.
pub kinit_lem :
    (end : ℕ) (w : ℕ → ℕ)
    → 0 < end
    → end ≤ phystop
    → (k' : Kmem) × (pages : List ℕ) × (kinit end w ≡ ok k')
      × Holds end k' pages
      × ((x : ℕ) → In x pages ↔ IsPage end x)
unfolding kinit freerange
kinit_lem end w pos top =
    let p = pgroundup end in
    let c = (phystop - p) / 4096 in
    let k : Kmem = record { freelist = 0; word = w } in
    let (k', e, h) =
      free_from-Holds end phystop (phystop / pgsize + 1) c p k [] (omega arith) pos (omega arith)
        (omega arith) (omega arith) (omega arith) (omega arith) tt refl in
    (
      k',
      stacked c p [],
      e,
      h,
      λ x.
          let m = In-stacked c p x [] (omega arith) in
          (
            λ i. elim (m.0 i) [
              | inl f ↦ absurd f
              | inr (a, b, d) ↦ record { aligned = a; above = omega arith; below = omega arith }
            ],
            λ pg. m.1 (
                inr (
                  pg.aligned,
                  omega (arith, pg.aligned, pg.above),
                  omega (arith, pg.aligned, pg.below),
                )),
          ),
    )
