-- ===== src/Vm/Tables.antt =====
-- walk of kernel/vm.c with alloc set: the entry that it returns is the one that a walk without finds.
use operationg_systems.Prelude.{
  ℕ, zero, suc, ◌+◌, ◌*◌, ◌/◌, ◌%◌, ◌^◌, ◌≡◌, ◌≢◌, ◌⊎◌, ◌<◌, inl, inr, refl, ap, ◌∙◌, sym, subst,
  List, [], ◌∷◌, true, false, ==_ne, ==_iff, arith, none, some, Bool-cases,
}
use operationg_systems.Kalloc.{Kmem, store, fill, kalloc}
use operationg_systems.Kalloc.Chain.{IsPage, NotIn, IsChain-frame, Holds, kalloc-Holds}
use operationg_systems.Kalloc.Range.{In}
use operationg_systems.Vm.Pte.{px, pte2pa, pa2pte, is_valid, pgrounddown}
use operationg_systems.Vm.Walk.{slot, kalloc_zeroed, walk_down}

-- No page of the one list is in the other.
abbrev pub Apart : List ℕ → List ℕ → Type 0
Apart [] free = Unit {0}
Apart (t ∷ tables) free = NotIn t free × Apart tables free

-- The tables on the way of a walk are pages, each met once, and none of them is free. `above` are those met
-- before.
abbrev pub Tables : ℕ → ℕ → ℕ → (ℕ → ℕ) → List ℕ → List ℕ → Type 0
Tables zero va pt w above free = (pt % 4096 ≡ 0) × NotIn pt above × NotIn pt free
Tables (suc level) va pt w above free =
    ((pt % 4096 ≡ 0) × NotIn pt above × NotIn pt free)
    × ((is_valid (w (slot (suc level) pt va)) ≡ false)
        ⊎ Tables level va (pte2pa (w (slot (suc level) pt va))) w (pt ∷ above) free)

-- The pages of a list have the same words in both memories.
abbrev pub SameOn : List ℕ → (ℕ → ℕ) → (ℕ → ℕ) → Type 0
SameOn pages w w' = (a : ℕ) → In (pgrounddown a) pages → w' a ≡ w a

pub slot-page : (level pt va : ℕ) → pt % 4096 ≡ 0 → pgrounddown (slot level pt va) ≡ pt
slot-page level pt va h = inside (px level va) (bound (va / 2 ^ (12 + 9 * level)))
  where
    bound : (n : ℕ) → n % 512 < 512
    bound n = omega arith

    inside : (i : ℕ) → i < 512 → (pt + 8 * i) / 4096 * 4096 ≡ pt
    inside i b = omega arith

NotIn-In : (x y : ℕ) (xs : List ℕ) → NotIn x xs → In y xs → x ≢ y
NotIn-In x y [] n i = elim i [ ]
NotIn-In x y (z ∷ xs) n (inl e) = λ f. n.0 (f ∙ e)
NotIn-In x y (z ∷ xs) n (inr i) = NotIn-In x y xs n.1 i

Apart-NotIn : (x : ℕ) (xs tables : List ℕ) → Apart tables (x ∷ xs) → NotIn x tables
Apart-NotIn x xs [] a = tt
Apart-NotIn x xs (t ∷ tables) a = (λ e. a.0.0 (sym e), Apart-NotIn x xs tables a.1)

Apart-tail : (x : ℕ) (xs tables : List ℕ) → Apart tables (x ∷ xs) → Apart tables xs
Apart-tail x xs [] a = tt
Apart-tail x xs (t ∷ tables) a = (a.0.1, Apart-tail x xs tables a.1)

-- What kalloc and the memset do, for a list of free pages that is not empty.
kalloc_zeroed-some :
    (end x : ℕ) (xs : List ℕ) (k : Kmem)
    → Holds end k (x ∷ xs)
    → let r = kalloc_zeroed k in
      (r.0 ≡ x)
      × IsPage end x
      × (x ≢ 0)
      × NotIn x xs
      × Holds end r.1 xs
      × ((a : ℕ) → pgrounddown a ≢ x → r.1.word a ≡ k.word a)
      × ((a : ℕ) → pgrounddown a ≡ x → r.1.word a ≡ 0)
unfolding kalloc_zeroed kalloc
kalloc_zeroed-some end x xs k (e, nz, pg, out, c) =
    let w' = fill (fill k.word x 0x0505050505050505) x 0 in
    let q : kalloc_zeroed k ≡ (x, record { freelist = k.word x; word = w' }) = zeroed k x e nz in
    rw q (
      refl,
      pg,
      nz,
      out,
      IsChain-frame end k.word w' x (k.word x) xs (λ a al ne. ground (arith, pg.aligned)) out c,
      λ a ne. ground (arith, pg.aligned),
      λ a same. ground (arith, pg.aligned),
    )
  where
    zeroed :
        (k : Kmem) (x : ℕ)
        → k.freelist ≡ x
        → x ≢ 0
        → kalloc_zeroed k
          ≡ (x, record { freelist = k.word x; word = fill (fill k.word x 0x0505050505050505) x 0 })
    zeroed k x e nz = ground (arith, e, nz)

kalloc_zeroed-none : (end : ℕ) (k : Kmem) → Holds end k [] → (kalloc_zeroed k).0 ≡ 0
unfolding kalloc_zeroed
kalloc_zeroed-none end k h = rw (kalloc-Holds end k [] h) refl

-- A walk without alloc changes nothing.
pub walk_down-still : (level va pt : ℕ) (k : Kmem) → (walk_down level false va pt k).1 ≡ k
unfolding walk_down
walk_down-still zero va pt k = refl
walk_down-still (suc level) va pt k =
    elim (Bool-cases (is_valid (k.word (slot (suc level) pt va)))) [
      | inl valid ↦ rw valid (walk_down-still level va (pte2pa (k.word (slot (suc level) pt va))) k)
      | inr invalid ↦ rw invalid refl
    ]

-- One level of a walk without alloc, through a valid entry.
pub walk_down-step :
    (level va pt pte : ℕ) (k : Kmem)
    → k.word (slot (suc level) pt va) ≡ pte
    → is_valid pte ≡ true
    → walk_down (suc level) false va pt k ≡ walk_down level false va (pte2pa pte) k
unfolding walk_down
walk_down-step level va pt pte k e v = rw (e, v) refl

-- What a walk with alloc that finds memory leaves behind.
pub record Walked (end level va pt s : ℕ) (k k1 : Kmem) (above free : List ℕ) : Type 0 where
  pub again : walk_down level false va pt k1 ≡ (some s, k1)
  pub left : List ℕ
  pub holds : Holds end k1 left
  pub fewer : (x : ℕ) → NotIn x free → NotIn x left
  pub same : SameOn above k.word k1.word
  pub tables : Tables level va pt k1.word above left

-- A table that is all zero.
zeroed-Tables :
    (level va pt : ℕ) (w : ℕ → ℕ) (above free : List ℕ)
    → pt % 4096 ≡ 0
    → NotIn pt above
    → NotIn pt free
    → ((a : ℕ) → pgrounddown a ≡ pt → w a ≡ 0)
    → Tables level va pt w above free
zeroed-Tables zero va pt w above free al na nf z = (al, na, nf)
zeroed-Tables (suc level) va pt w above free al na nf z =
    ((al, na, nf), inl (rw (z (slot (suc level) pt va) (slot-page (suc level) pt va al)) refl))

-- The entry that walk writes for a new table leads back to it.
pte2pa-pa2pte : (end x : ℕ) → IsPage end x → pte2pa (pa2pte x + 1) ≡ x
pte2pa-pa2pte end x p = omega (arith, p.aligned, p.below)

is_valid-pa2pte : (x : ℕ) → is_valid (pa2pte x + 1) ≡ true
is_valid-pa2pte x = (==_iff ((x / 4096 * 1024 + 1) % 2) 1).1 (omega arith)

-- A walk on through the entry at `s` that leads to the table c.
through :
    (end level va pt c s pte : ℕ) (k k' k1 : Kmem) (above free rest : List ℕ)
    → pt % 4096 ≡ 0
    → NotIn pt above
    → NotIn pt free
    → k'.word (slot (suc level) pt va) ≡ pte
    → is_valid pte ≡ true
    → pte2pa pte ≡ c
    → ((x : ℕ) → NotIn x free → NotIn x rest)
    → SameOn above k.word k'.word
    → Walked end level va c s k' k1 (pt ∷ above) rest
    → Walked end (suc level) va pt s k k1 above free
through end level va pt c s pte k k' k1 above free rest al na nf e v leads fewer same r =
    let kept = r.same (slot (suc level) pt va) (inl (slot-page (suc level) pt va al)) in
    record {
      again =
          walk_down-step level va pt pte k1 (kept ∙ e) v
          ∙ ap (λ t. walk_down level false va t k1) leads
          ∙ r.again;
      left = r.left;
      holds = r.holds;
      fewer = λ x n. r.fewer x (fewer x n);
      same = λ a i. r.same a (inr i) ∙ same a i;
      tables = (
        (al, na, r.fewer pt (fewer pt nf)),
        inr (
            subst (λ t. Tables level va t k1.word (pt ∷ above) r.left)
              (sym (ap pte2pa (kept ∙ e) ∙ leads)) r.tables),
      );
    }

-- A walk that makes the table below an entry that is not valid.
through_new :
    (end level va pt s : ℕ) (k k1 : Kmem) (above free : List ℕ)
    → Holds end k free
    → Apart above free
    → pt % 4096 ≡ 0
    → NotIn pt above
    → NotIn pt free
    → is_valid (k.word (slot (suc level) pt va)) ≡ false
    → walk_down (suc level) true va pt k ≡ (some s, k1)
    → ((x : ℕ) (k' : Kmem) (rest : List ℕ)
        → Holds end k' rest
        → Apart (pt ∷ above) rest
        → Tables level va x k'.word (pt ∷ above) rest
        → walk_down level true va x k' ≡ (some s, k1)
        → Walked end level va x s k' k1 (pt ∷ above) rest)
    → Walked end (suc level) va pt s k k1 above free
unfolding walk_down
through_new end level va pt s k k1 above [] h apart al na nf invalid e ih =
    let z = kalloc_zeroed-none end k h in
    let f = rw (invalid, z) at e in absurd (none_some (ap (λ r. r.0) f))
  where
    none_some : none ≡ some s → ⊥
    none_some q = cc
through_new end level va pt s k k1 above (x ∷ xs) h apart al na nf invalid e ih =
    let (z, pg, nz, out, holds, kept, zero_page) = kalloc_zeroed-some end x xs k h in
    let r1 = (kalloc_zeroed k).1 in
    let sl = slot (suc level) pt va in
    let in_pt = slot-page (suc level) pt va al in
    let pte = pa2pte x + 1 in
    let k' = record r1 { word = store r1.word sl pte } in
    let f = rw (invalid, z, ==_ne x 0 nz) at e in
    let holds' : Holds end k' xs =
      IsChain-frame end r1.word k'.word pt r1.freelist xs (λ a ala ne. ground (arith, in_pt)) nf.1
        holds in
    let stored : k'.word sl ≡ pte = ground arith in
    let clear : (a : ℕ) → pgrounddown a ≡ x → k'.word a ≡ 0 =
      λ a same. ground (arith, in_pt, nf.0, zero_page a same, same) in
    let tables =
      zeroed-Tables level va x k'.word (pt ∷ above) xs pg.aligned
        ((λ q. nf.0 (sym q)), Apart-NotIn x xs above apart) out clear in
    let same : SameOn above k.word k'.word = λ a i. ground (
      arith,
      in_pt,
      NotIn-In pt (pgrounddown a) above na i,
      kept a (λ q. NotIn-In x (pgrounddown a) above (Apart-NotIn x xs above apart) i (sym q)),
    ) in
    through end level va pt x s pte k k' k1 above (x ∷ xs) xs al na nf stored (is_valid-pa2pte x)
      (pte2pa-pa2pte end x pg) (λ y n. n.1) same
      (ih x k' xs holds' (nf.1, Apart-tail x xs above apart) tables f)

pub walk_down-Walked :
    (end level va pt s : ℕ) (k k1 : Kmem) (above free : List ℕ)
    → Holds end k free
    → Apart above free
    → Tables level va pt k.word above free
    → walk_down level true va pt k ≡ (some s, k1)
    → Walked end level va pt s k k1 above free
unfolding walk_down
walk_down-Walked end zero va pt s k k1 above free h apart t e = record {
  again = ap (λ r. (r.0, k1)) e;
  left = free;
  holds = subst (λ r. Holds end r free) (ap (λ r. r.1) e) h;
  fewer = λ x n. n;
  same = λ a i. ap (λ r. r.1.word a) (sym e);
  tables = subst (λ r. Tables zero va pt r.word above free) (ap (λ r. r.1) e) t;
}
walk_down-Walked end (suc level) va pt s k k1 above free h apart (here, t) e =
    elim (Bool-cases (is_valid (k.word (slot (suc level) pt va)))) [
      | inl valid ↦
          let pte = k.word (slot (suc level) pt va) in
          let below = child valid t in
          through end level va pt (pte2pa pte) s pte k k k1 above free free here.0 here.1 here.2
            refl valid refl (λ x n. n) (λ a i. refl)
            (walk_down-Walked end level va (pte2pa pte) s k k1 (pt ∷ above) free h (here.2, apart)
              below (rw valid at e))
      | inr invalid ↦
          through_new end level va pt s k k1 above free h apart here.0 here.1 here.2 invalid e
            (λ x k' rest holds' apart' tables f.
              walk_down-Walked end level va x s k' k1 (pt ∷ above) rest holds' apart' tables f)
    ]
  where
    child :
        is_valid (k.word (slot (suc level) pt va)) ≡ true
        → (is_valid (k.word (slot (suc level) pt va)) ≡ false)
          ⊎ Tables level va (pte2pa (k.word (slot (suc level) pt va))) k.word (pt ∷ above) free
        → Tables level va (pte2pa (k.word (slot (suc level) pt va))) k.word (pt ∷ above) free
    child v (inl f) = absurd (ground (arith, v, f))
    child v (inr t) = t
