-- ===== src/Vm/Mapped.antt =====
-- What mappages of kernel/vm.c leaves for a page: walkaddr finds it.
use operationg_systems.Prelude.{
  ℕ, zero, suc, ◌+◌, ◌-◌, ◌*◌, ◌/◌, ◌%◌, ◌^◌, ◌≡◌, ◌<◌, inl, inr, refl, ap, ◌∙◌, sym, subst, List,
  [], ◌∷◌, Bool, true, false, not, ◌==◌, ==_iff, ==_refl, if◌then◌else◌, arith, Option, none, some,
  Bool-cases, leb, ◌&&◌, ◌||◌, or_true, fun_ext, Outcome, ok, panic, ◌>>=◌, >>=-eq-ok, ok-injective,
}
use operationg_systems.Kalloc.{Kmem, store}
use operationg_systems.Kalloc.Chain.{NotIn, Holds}
use operationg_systems.Vm.Pte.{maxva, pte2pa, is_valid, is_user, pte_flags, make_pte, pgrounddown}
use operationg_systems.Vm.Walk.{slot, walk_down, walk, entry_page, walkaddr}
use operationg_systems.Vm.Tables.{
  Tables, slot-page, walk_down-Walked, walk_down-step, walk_down-still,
}
use operationg_systems.Vm.Map.{map_at, map_one, map_from, mappages, unmap_at, unmap_one}

-- A walk ends in a table that it has not met before.
last_table :
    (level va pt s : ℕ) (k : Kmem) (above free : List ℕ)
    → Tables level va pt k.word above free
    → walk_down level false va pt k ≡ (some s, k)
    → NotIn (pgrounddown s) above
unfolding walk_down
last_table zero va pt s k above free t e =
    subst (λ a. NotIn a above)
      (sym (slot-page 0 pt va t.0) ∙ ap pgrounddown (some-injective (ap (λ r. r.0) e))) t.1
  where
    some-injective : {a b : ℕ} → some a ≡ some b → a ≡ b
    some-injective q = cc
last_table (suc level) va pt s k above free (here, inl f) e =
    absurd (none_some (ap (λ r. r.0) (rw f at e)))
  where
    none_some : none ≡ some s → ⊥
    none_some q = cc
last_table (suc level) va pt s k above free (here, inr t) e =
    elim (Bool-cases (is_valid (k.word (slot (suc level) pt va)))) [
      | inl valid ↦
          (last_table level va (pte2pa (k.word (slot (suc level) pt va))) s k (pt ∷ above) free t
            (rw valid at e)).1
      | inr invalid ↦ absurd (none_some (ap (λ r. r.0) (rw invalid at e)))
    ]
  where
    none_some : none ≡ some s → ⊥
    none_some q = cc

-- Writing the entry that a walk has found does not change the walk.
stored_walk :
    (level va pt s v : ℕ) (k : Kmem) (above free : List ℕ)
    → Tables level va pt k.word above free
    → walk_down level false va pt k ≡ (some s, k)
    → let k' = record k { word = store k.word s v } in walk_down level false va pt k' ≡ (some s, k')
unfolding walk_down
stored_walk zero va pt s v k above free t e =
    ap (λ r. (r.0, record k { word = store k.word s v })) e
stored_walk (suc level) va pt s v k above free (here, inl f) e =
    absurd (none_some (ap (λ r. r.0) (rw f at e)))
  where
    none_some : none ≡ some s → ⊥
    none_some q = cc
stored_walk (suc level) va pt s v k above free (here, inr t) e =
    elim (Bool-cases (is_valid (k.word (slot (suc level) pt va)))) [
      | inr invalid ↦ absurd (none_some (ap (λ r. r.0) (rw invalid at e)))
      | inl valid ↦
          let sl = slot (suc level) pt va in
          let k' = record k { word = store k.word s v } in
          let below = rw valid at e in
          let apart = last_table level va (pte2pa (k.word sl)) s k (pt ∷ above) free t below in
          let in_pt = slot-page (suc level) pt va here.0 in
          let kept : k'.word sl ≡ k.word sl = ground (arith, in_pt, apart.0) in
          walk_down-step level va pt (k.word sl) k' kept valid
          ∙ stored_walk level va (pte2pa (k.word sl)) s v k (pt ∷ above) free t below
    ]
  where
    none_some : none ≡ some s → ⊥
    none_some q = cc

map_at-some :
    (pa perm : ℕ) (r : Option ℕ × Kmem) (k1 : Kmem)
    → map_at pa perm r ≡ ok (true, k1)
    → (s : ℕ) × (k2 : Kmem) × (r ≡ (some s, k2))
      × (k1 ≡ record k2 { word = store k2.word s (make_pte pa perm) })
unfolding map_at
map_at-some pa perm (none, k) k1 e = cc
map_at-some pa perm (some s, k) k1 e = elim (Bool-cases (is_valid (k.word s))) [
  | inl valid ↦ absurd (ground (arith, rw valid at e))
  | inr invalid ↦ (s, k, refl, ap (λ r. r.1) (sym (ok-injective (rw invalid at e))))
]

walk_low :
    (pt a : ℕ) (alloc : Bool) (k : Kmem)
    → a < maxva
    → walk pt a alloc k ≡ ok (walk_down 2 alloc a pt k)
unfolding walk
walk_low pt a alloc k low =
    ap (λ b. if b then panic else ok (walk_down 2 alloc a pt k)) {x = leb maxva a} {y = false}
      (ground arith)

-- The address that an entry of a user page leads to.
user_entry :
    (pa perm : ℕ)
    → pa % 4096 ≡ 0
    → pa < 2 ^ 56
    → perm < 1024
    → is_user perm ≡ true
    → (is_valid (make_pte pa perm) ≡ true)
      × (is_user (make_pte pa perm) ≡ true)
      × (pte2pa (make_pte pa perm) ≡ pa)
user_entry pa perm al low small user =
    let u : perm / 16 % 2 ≡ 1 = (==_iff (perm / 16 % 2) 1).0 user in
    elim (Bool-cases (perm % 2 == 1)) [
      | inl odd ↦
          let o : perm % 2 ≡ 1 = (==_iff (perm % 2) 1).0 odd in
          rw odd (
            (==_iff ((pa / 4096 * 1024 + perm) % 2) 1).1 (omega arith),
            (==_iff ((pa / 4096 * 1024 + perm) / 16 % 2) 1).1 (omega arith),
            omega arith,
          )
      | inr even ↦
          let o : perm % 2 ≡ 0 = ground (arith, even) in
          rw even (
            (==_iff ((pa / 4096 * 1024 + (perm + 1)) % 2) 1).1 (omega arith),
            (==_iff ((pa / 4096 * 1024 + (perm + 1)) / 16 % 2) 1).1 (omega arith),
            omega arith,
          )
    ]

walkaddr_found :
    (pt a s : ℕ) (k : Kmem)
    → a < maxva
    → walk_down 2 false a pt k ≡ (some s, k)
    → is_valid (k.word s) ≡ true
    → is_user (k.word s) ≡ true
    → walkaddr pt a k ≡ pte2pa (k.word s)
unfolding walkaddr entry_page
walkaddr_found pt a s k low e v u =
    ap (λ b. if b then 0 else entry_page (walk_down 2 false a pt k).0 k) {x = leb maxva a}
      {y = false} (ground arith)
    ∙ ap (λ r. entry_page r.0 k) e
    ∙ ap (λ b. if b then pte2pa (k.word s) else 0) {x = is_valid (k.word s) && is_user (k.word s)}
        {y = true} (ground (arith, v, u))

store_self : (w : ℕ → ℕ) (s v : ℕ) → store w s v s ≡ v
store_self w s v = rw (==_refl s) refl

-- One round of mappages.
walkaddr-map_one :
    (end pt a pa perm : ℕ) (k k1 : Kmem) (free : List ℕ)
    → a < maxva
    → pa % 4096 ≡ 0
    → pa < 2 ^ 56
    → perm < 1024
    → is_user perm ≡ true
    → Holds end k free
    → Tables 2 a pt k.word [] free
    → map_one pt a pa perm k ≡ ok (true, k1)
    → walkaddr pt a k1 ≡ pa
unfolding map_one
walkaddr-map_one end pt a pa perm k k1 free low al pa_low small user h t e =
    let (r, e1, e2) = >>=-eq-ok (walk pt a true k) (map_at pa perm) e in
    let (s, k2, e3, e4) = map_at-some pa perm r k1 e2 in
    let walked = ok-injective (sym (walk_low pt a true k low) ∙ e1) ∙ e3 in
    let w = walk_down-Walked end 2 a pt s k k2 [] free h tt t walked in
    let k3 = record k2 { word = store k2.word s (make_pte pa perm) } in
    let found = stored_walk 2 a pt s (make_pte pa perm) k2 [] w.left w.tables w.again in
    let (valid, is_u, leads) = user_entry pa perm al pa_low small user in
    let here = store_self k2.word s (make_pte pa perm) in
    ap (walkaddr pt a) e4
    ∙ walkaddr_found pt a s k3 low found (ap is_valid here ∙ valid) (ap is_user here ∙ is_u)
    ∙ ap pte2pa here
    ∙ leads

bind_ok : {A B : Type 0} (m : Outcome (A × B)) → (m >>= λ r. ok (r.0, r.1)) ≡ m
bind_ok (ok r) = refl
bind_ok panic = refl

-- The last round of mappages.
map_from-last :
    (fuel pt a pa perm : ℕ) (k : Kmem)
    → map_from (suc fuel) pt a a pa perm k ≡ map_one pt a pa perm k
unfolding map_from
map_from-last fuel pt a pa perm k =
    ap
      (λ (f : Bool → Bool). map_one pt a pa perm k >>= λ (mapped, k1).
        if f mapped then ok (mapped, k1) else map_from fuel pt (a + 4096) a (pa + 4096) perm k1)
      (fun_ext (λ b. or_last b))
    ∙ bind_ok (map_one pt a pa perm k)
  where
    or_last : (b : Bool) → (not b || a == a) ≡ true
    or_last b = rw (==_refl a) (or_true (not b))

pub mappages-page :
    (pt a pa perm : ℕ) (k : Kmem)
    → a % 4096 ≡ 0
    → a < maxva
    → mappages pt a 4096 pa perm k ≡ map_one pt a pa perm k
unfolding mappages
mappages-page pt a pa perm k al low =
    ap
      (λ f.
        map_from (maxva / 4096 + 1) pt f (pgrounddown ((a + 4096 + 2 ^ 64 - 1) % 2 ^ 64)) pa perm k)
      {x = pgrounddown a} {y = a} (omega arith)
    ∙ ap (λ l. map_from (maxva / 4096 + 1) pt a l pa perm k)
        {x = pgrounddown ((a + 4096 + 2 ^ 64 - 1) % 2 ^ 64)} {y = a} (omega arith)
    ∙ map_from-last (maxva / 4096) pt a pa perm k

-- A page that mappages maps for the user is the one that walkaddr finds from then on, whatever tables walk
-- had to make for it, in a page table whose tables are pages that are met once and not free.
pub walkaddr-mappages :
    (end pt a pa perm : ℕ) (k k1 : Kmem) (free : List ℕ)
    → a % 4096 ≡ 0
    → a < maxva
    → pa % 4096 ≡ 0
    → pa < 2 ^ 56
    → perm < 1024
    → is_user perm ≡ true
    → Holds end k free
    → Tables 2 a pt k.word [] free
    → mappages pt a 4096 pa perm k ≡ ok (true, k1)
    → walkaddr pt a k1 ≡ pa
walkaddr-mappages end pt a pa perm k k1 free ala low al pa_low small user h t e =
    walkaddr-map_one end pt a pa perm k k1 free low al pa_low small user h t
      (sym (mappages-page pt a pa perm k ala low) ∙ e)

unmap_at-some :
    (end : ℕ) (r : Option ℕ × Kmem) (k1 : Kmem)
    → unmap_at end false r ≡ ok k1
    → (s : ℕ) × (r.0 ≡ some s) × (k1 ≡ record r.1 { word = store r.1.word s 0 })
unfolding unmap_at
unmap_at-some end (none, k) k1 e = cc
unmap_at-some end (some s, k) k1 e = elim (Bool-cases (not (is_valid (k.word s)))) [
  | inl invalid ↦ absurd (ground (arith, rw invalid at e))
  | inr valid ↦ elim (Bool-cases (pte_flags (k.word s) == 1)) [
    | inl table ↦ absurd (ground (arith, rw (valid, table) at e))
    | inr leaf ↦ (s, refl, sym (ok-injective (rw (valid, leaf) at e)))
  ]
]

walkaddr_cleared :
    (pt a s : ℕ) (k : Kmem)
    → walk_down 2 false a pt k ≡ (some s, k)
    → k.word s ≡ 0
    → walkaddr pt a k ≡ 0
unfolding walkaddr entry_page
walkaddr_cleared pt a s k e z =
    ap (λ r. if leb maxva a then 0 else entry_page r.0 k) e
    ∙ elim (Bool-cases (leb maxva a)) [ inl high ↦ rw high refl | inr low ↦ rw (low, z) refl ]

-- uvmunmap of a page that it is not to free, where it comes back, leaves the page unmapped: walkaddr then
-- returns 0 for it.
walkaddr-unmap_one :
    (end pt a : ℕ) (k k1 : Kmem) (free : List ℕ)
    → a < maxva
    → Tables 2 a pt k.word [] free
    → unmap_one end pt a false k ≡ ok k1
    → walkaddr pt a k1 ≡ 0
unfolding unmap_one
walkaddr-unmap_one end pt a k k1 free low t e =
    let (r, e1, e2) = >>=-eq-ok (walk pt a false k) (unmap_at end false) e in
    let (s, e3, e4) = unmap_at-some end r k1 e2 in
    let walked = ok-injective (sym (walk_low pt a false k low) ∙ e1) in
    let still : r.1 ≡ k = ap (λ x. x.1) (sym walked) ∙ walk_down-still 2 a pt k in
    let found : walk_down 2 false a pt k ≡ (some s, k) =
      walked ∙ ap (λ o. (o, r.1)) e3 ∙ ap (λ m. (some s, m)) still in
    let k3 = record k { word = store k.word s 0 } in
    ap (walkaddr pt a) (e4 ∙ ap (λ (m : Kmem). record m { word = store m.word s 0 }) still)
    ∙ walkaddr_cleared pt a s k3 (stored_walk 2 a pt s 0 k [] free t found) (store_self k.word s 0)
