-- ===== src/Vm/Bytewise.antt =====
-- copyin and copyinstr of kernel/vm.c against a reading of user memory one byte at a time.
use operationg_systems.Prelude.{
  ℕ, zero, suc, ◌+◌, ◌-◌, ◌%◌, ◌^◌, ◌≡◌, ◌≢◌, ◌⊎◌, ==_ne, ==_iff, ◌≤◌, refl, ap, ◌∙◌, sym, List, [],
  ◌∷◌, ◌++◌, ◌==◌, if◌then◌else◌, arith, Option, none, some, Bool-cases, inl, inr,
}
use operationg_systems.Kalloc.{Kmem}
use operationg_systems.Vm.Pte.{pgrounddown, get_byte, get_bytes}
use operationg_systems.Vm.Walk.{walkaddr}
use operationg_systems.Vm.Copy.{chunk, copyin_from, copyin}

-- The byte at a user address, if its page is mapped for the user.
abbrev pub user_byte : ℕ → Kmem → ℕ → Option ℕ
user_byte pagetable k va =
    let pa0 = walkaddr pagetable (pgrounddown va) k in
    if pa0 == 0 then none else some (get_byte k.word (pa0 + va % 4096))

abbrev pub glue : Option ℕ → Option (List ℕ) → Option (List ℕ)
glue none o = none
glue (some v) none = none
glue (some v) (some vs) = some (v ∷ vs)

-- n bytes from a user address on, if they are all there
abbrev pub user_bytes : ℕ → Kmem → ℕ → ℕ → Option (List ℕ)
user_bytes pagetable k va zero = some []
user_bytes pagetable k va (suc n) =
    glue (user_byte pagetable k va) (user_bytes pagetable k (va + 1) n)

-- The bytes of the first option, and those of the second.
abbrev joined : List ℕ → Option (List ℕ) → Option (List ℕ)
joined xs none = none
joined xs (some ys) = some (xs ++ ys)

joined-nil : (o : Option (List ℕ)) → joined [] o ≡ o
joined-nil none = refl
joined-nil (some ys) = refl

user_byte-mapped :
    (pagetable : ℕ) (k : Kmem) (va pa0 : ℕ)
    → walkaddr pagetable (pgrounddown va) k ≡ pa0
    → pa0 ≢ 0
    → user_byte pagetable k va ≡ some (get_byte k.word (pa0 + va % 4096))
user_byte-mapped pagetable k va pa0 e nz = rw (e, ==_ne pa0 0 nz) refl

-- n bytes inside the page pa0, from its address p on, and the rest behind them.
user_bytes-page :
    (pagetable : ℕ) (k : Kmem) (n rest total va va' p pa0 : ℕ)
    → total ≡ n + rest
    → va' ≡ va + n
    → va % 4096 + n ≤ 4096
    → (n ≡ 0) ⊎ ((walkaddr pagetable (pgrounddown va) k ≡ pa0) × (p ≡ pa0 + va % 4096))
    → pa0 ≢ 0
    → user_bytes pagetable k va total
      ≡ joined (get_bytes k.word p n) (user_bytes pagetable k va' rest)
unfolding get_bytes
user_bytes-page pagetable k zero rest total va va' p pa0 et ev h e nz =
    ap (user_bytes pagetable k va) {x = total} {y = rest} (omega arith)
    ∙ ap (λ v. user_bytes pagetable k v rest) {x = va} {y = va'} (omega arith)
    ∙ sym (joined-nil (user_bytes pagetable k va' rest))
user_bytes-page pagetable k (suc n) rest zero va va' p pa0 et ev h e nz = absurd (omega arith)
user_bytes-page pagetable k (suc n) rest (suc total) va va' p pa0 et ev h (inl z) nz =
    absurd (omega arith)
user_bytes-page pagetable k (suc n) rest (suc total) va va' p pa0 et ev h (inr (e, q)) nz =
    let byte : user_byte pagetable k va ≡ some (get_byte k.word p) =
      user_byte-mapped pagetable k va pa0 e nz ∙ ap (λ a. some (get_byte k.word a)) (sym q) in
    let more =
      user_bytes-page pagetable k n rest total (va + 1) va' (p + 1) pa0 (omega arith) (omega arith)
        (omega arith) (next n h) nz in
    ap (λ b. glue b (user_bytes pagetable k (va + 1) total)) byte
    ∙ ap (glue (some (get_byte k.word p))) more
    ∙ after (user_bytes pagetable k va' rest)
  where
    next :
        (n : ℕ)
        → va % 4096 + suc n ≤ 4096
        → (n ≡ 0)
          ⊎ ((walkaddr pagetable (pgrounddown (va + 1)) k ≡ pa0) × (p + 1 ≡ pa0 + (va + 1) % 4096))
    next zero h = inl refl
    next (suc n) h =
        let same : pgrounddown (va + 1) ≡ pgrounddown va = omega arith in
        inr (ap (λ a. walkaddr pagetable a k) same ∙ e, omega arith)

    after :
        (o : Option (List ℕ))
        → glue (some (get_byte k.word p)) (joined (get_bytes k.word (p + 1) n) o)
          ≡ joined (get_byte k.word p ∷ get_bytes k.word (p + 1) n) o
    after none = refl
    after (some ys) = refl

-- A page that is not mapped.
user_bytes-unmapped :
    (pagetable : ℕ) (k : Kmem) (va n : ℕ)
    → walkaddr pagetable (pgrounddown va) k ≡ 0
    → user_bytes pagetable k va (suc n) ≡ none
user_bytes-unmapped pagetable k va n e =
    let b : user_byte pagetable k va ≡ none = rw e refl in
    ap (λ o. glue o (user_bytes pagetable k (va + 1) n)) b

user_bytes-rest :
    (pagetable : ℕ) (k : Kmem) (va va' n : ℕ)
    → (n ≡ 0) ⊎ (va ≡ va')
    → user_bytes pagetable k va n ≡ user_bytes pagetable k va' n
user_bytes-rest pagetable k va va' zero h = refl
user_bytes-rest pagetable k va va' (suc n) (inl z) = absurd (omega arith)
user_bytes-rest pagetable k va va' (suc n) (inr e) = ap (λ v. user_bytes pagetable k v (suc n)) e

copyin_from-user_bytes :
    (fuel pagetable srcva len : ℕ) (k : Kmem)
    → len ≤ fuel
    → srcva + len ≤ 2 ^ 64
    → copyin_from fuel pagetable srcva len k ≡ user_bytes pagetable k srcva len
unfolding copyin_from
copyin_from-user_bytes fuel pagetable srcva zero k h b = refl
copyin_from-user_bytes zero pagetable srcva (suc len) k h b = absurd (omega arith)
copyin_from-user_bytes (suc fuel) pagetable srcva (suc len) k h b =
    let pa0 = walkaddr pagetable (pgrounddown srcva) k in
    let n = chunk srcva (suc len) in
    let here = pa0 + (srcva - pgrounddown srcva) in
    let next = (pgrounddown srcva + 4096) % 2 ^ 64 in
    elim (Bool-cases (pa0 == 0)) [
      | inl unmapped ↦
          ap
            (λ c.
              if c
              then none
              else joined (get_bytes k.word here n)
                  (copyin_from fuel pagetable next (suc len - n) k))
            unmapped
          ∙ sym (user_bytes-unmapped pagetable k srcva len ((==_iff pa0 0).0 unmapped))
      | inr mapped ↦
          ap
            (λ c.
              if c
              then none
              else joined (get_bytes k.word here n)
                  (copyin_from fuel pagetable next (suc len - n) k))
            mapped
          ∙ ap (joined (get_bytes k.word here n)) (
              copyin_from-user_bytes fuel pagetable next (suc len - n) k (omega arith) (omega arith)
              ∙ user_bytes-rest pagetable k next (srcva + n) (suc len - n) (ground arith))
          ∙ sym (
              user_bytes-page pagetable k n (suc len - n) (suc len) srcva (srcva + n) here pa0
                (omega arith) refl (omega arith) (inr (refl, omega arith)) (ground (arith, mapped)))
    ]

-- copyin, page by page, reads what a reading byte by byte would, for a range that does not wrap: it
-- returns the len bytes at srcva and the addresses behind it, each found through its own page, or -1 if one
-- of the pages is not mapped for the user.
pub copyin-user_bytes :
    (pagetable srcva len : ℕ) (k : Kmem)
    → srcva + len ≤ 2 ^ 64
    → copyin pagetable srcva len k ≡ user_bytes pagetable k srcva len
unfolding copyin
copyin-user_bytes pagetable srcva len k b =
    copyin_from-user_bytes len pagetable srcva len k (omega arith) b
