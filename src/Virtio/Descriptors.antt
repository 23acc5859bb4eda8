-- ===== src/Virtio/Descriptors.antt =====
-- What the calls on the descriptors of kernel/virtio_disk.c do.
use operationg_systems.Prelude.{
  ℕ, zero, suc, ◌+◌, ◌%◌, ◌≡◌, ◌≢◌, ◌<◌, refl, ap, sym, ◌∙◌, ◌⊎◌, inl, inr, List, [], ◌∷◌, ◌++◌,
  Bool, true, false, ◌==◌, Bool-cases, none, some, ok, ◌>>=◌, arith,
}
use operationg_systems.Virtio.{
  put, num, Desc, Disk, alloc_from, alloc_desc, freed, free_desc, free_rounds, free_chain,
  free_each, alloc_round, alloc_each, alloc3_desc,
}

-- The state with descriptor i taken.
abbrev pub taken : ℕ → Disk → Disk
taken i d = record d { free = put d.free i false }

alloc_from_lem :
    (left i : ℕ) (d : Disk)
    → ((j : ℕ) × (j < i + left) × (d.free j ≡ true) × (alloc_from left i d ≡ (some j, taken j d)))
      ⊎ (alloc_from left i d ≡ (none, d))
unfolding alloc_from
alloc_from_lem zero i d = inr refl
alloc_from_lem (suc left) i d = elim (Bool-cases (d.free i)) [
  | inl empty ↦ inl (i, omega arith, empty, (rw empty refl))
  | inr used ↦ elim (alloc_from_lem left (i + 1) d) [
    | inl (j, low, empty, e) ↦ inl (j, omega (arith, low), empty, rw used e)
    | inr e ↦ inr (rw used e)
  ]
]

alloc_desc_lem :
    (d : Disk)
    → ((j : ℕ) × (j < num) × (d.free j ≡ true) × (alloc_desc d ≡ (some j, taken j d)))
      ⊎ (alloc_desc d ≡ (none, d))
unfolding alloc_desc
alloc_desc_lem d = alloc_from_lem num 0 d

free_desc-used : (i : ℕ) (d : Disk) → i < num → d.free i ≡ false → free_desc i d ≡ ok (freed i d)
unfolding free_desc
free_desc-used i d low used = ground (arith, low, used)

-- A chain of three descriptors in use.
pub record Chain : Type 0 where
  pub first : ℕ
  pub second : ℕ
  pub third : ℕ

pub record IsLinked (desc : ℕ → Desc) (c : Chain) : Type 0 where
  pub first_next : (desc c.first).flags % 2 ≡ 1
  pub first_link : (desc c.first).next ≡ c.second
  pub second_next : (desc c.second).flags % 2 ≡ 1
  pub second_link : (desc c.second).next ≡ c.third
  pub third_end : (desc c.third).flags % 2 ≡ 0

pub record IsUsed (d : Disk) (c : Chain) : Type 0 where
  pub first_low : c.first < num
  pub second_low : c.second < num
  pub third_low : c.third < num
  pub first_used : d.free c.first ≡ false
  pub second_used : d.free c.second ≡ false
  pub third_used : d.free c.third ≡ false
  pub first_second : c.first ≢ c.second
  pub first_third : c.first ≢ c.third
  pub second_third : c.second ≢ c.third

round_next :
    (fuel i n : ℕ) (d : Disk)
    → i < num
    → d.free i ≡ false
    → (d.desc i).flags % 2 ≡ 1
    → (d.desc i).next ≡ n
    → free_rounds (suc fuel) i d ≡ free_rounds fuel n (freed i d)
unfolding free_rounds
round_next fuel i n d low used odd link = rw (free_desc-used i d low used, odd, link) refl

round_last :
    (fuel i : ℕ) (d : Disk)
    → i < num
    → d.free i ≡ false
    → (d.desc i).flags % 2 ≡ 0
    → free_rounds (suc fuel) i d ≡ ok (freed i d)
unfolding free_rounds
round_last fuel i d low used even = rw (free_desc-used i d low used, even) refl

same_of : (i j : ℕ) → i == j ≡ true → i ≡ j
same_of i j e = ground (arith, e)

put_else {ℓ} : {A : Type ℓ} (f : ℕ → A) (i j : ℕ) (v : A) → j ≢ i → put f i v j ≡ f j
put_else f i j v ne = ground (arith, ne)

-- free_chain of a chain in use frees its three descriptors.
pub free_chain-linked :
    (d : Disk) (c : Chain)
    → IsUsed d c
    → IsLinked d.desc c
    → free_chain c.first d ≡ ok (freed c.third (freed c.second (freed c.first d)))
unfolding free_chain
free_chain-linked d c u l =
    let d1 = freed c.first d in
    let d2 = freed c.second d1 in
    let ne1 : c.second ≢ c.first = λ e. u.first_second (sym e) in
    let ne2 : c.third ≢ c.first = λ e. u.first_third (sym e) in
    let ne3 : c.third ≢ c.second = λ e. u.second_third (sym e) in
    let same2 : d1.desc c.second ≡ d.desc c.second = put_else d.desc c.first c.second _ ne1 in
    let same3 : d2.desc c.third ≡ d.desc c.third =
      put_else d1.desc c.second c.third _ ne3 ∙ put_else d.desc c.first c.third _ ne2 in
    let used2 : d1.free c.second ≡ false =
      put_else d.free c.first c.second true ne1 ∙ u.second_used in
    let used3 : d2.free c.third ≡ false =
      put_else d1.free c.second c.third true ne3
      ∙ put_else d.free c.first c.third true ne2
      ∙ u.third_used in
    round_next 7 c.first c.second d u.first_low u.first_used l.first_next l.first_link
    ∙ round_next 6 c.second c.third d1 u.second_low used2
        (ap (λ x. x.flags % 2) same2 ∙ l.second_next) (ap (λ x. x.next) same2 ∙ l.second_link)
    ∙ round_last 5 c.third d2 u.third_low used3 (ap (λ x. x.flags % 2) same3 ∙ l.third_end)

-- What alloc3_desc does: it takes three free descriptors, or leaves every descriptor as free as before, and
-- those in use as they were.
pub record IsTaken (d d' : Disk) (c : Chain) : Type 0 where
  pub first_low : c.first < num
  pub second_low : c.second < num
  pub third_low : c.third < num
  pub first_free : d.free c.first ≡ true
  pub second_free : d.free c.second ≡ true
  pub third_free : d.free c.third ≡ true
  pub first_second : c.first ≢ c.second
  pub first_third : c.first ≢ c.third
  pub second_third : c.second ≢ c.third
  pub result : d' ≡ taken c.third (taken c.second (taken c.first d))

pub record IsKept (d d' : Disk) : Type 0 where
  pub free : (i : ℕ) → d'.free i ≡ d.free i
  pub desc : (i : ℕ) → d.free i ≡ false → d'.desc i ≡ d.desc i

free_again : (free : ℕ → Bool) (i j : ℕ) → free i ≡ true → put (put free i false) i true j ≡ free j
free_again free i j e = elim (Bool-cases (j == i)) [
  | inl same ↦ let here : j ≡ i = ground (arith, same) in rw same (sym e ∙ ap free (sym here))
  | inr other ↦ rw other refl
]

still_free : (free : ℕ → Bool) (i j : ℕ) → put free i false j ≡ true → (free j ≡ true) × (j ≢ i)
still_free free i j e = (ground (arith, e), λ same. ground (arith, e, same))

each_some :
    (left i : ℕ) (idx : List ℕ) (d d' : Disk)
    → alloc_desc d ≡ (some i, d')
    → alloc_each (suc left) idx d ≡ alloc_each left (idx ++ i ∷ []) d'
unfolding alloc_each
each_some left i idx d d' e = ap (λ r. alloc_round (λ idx' d''. alloc_each left idx' d'') idx r) e

each_none :
    (left : ℕ) (idx : List ℕ) (d d' : Disk)
    → alloc_desc d ≡ (none, d)
    → free_each idx d ≡ ok d'
    → alloc_each (suc left) idx d ≡ ok (none, d')
unfolding alloc_each
each_none left idx d d' e h =
    ap (λ r. alloc_round (λ idx' d''. alloc_each left idx' d'') idx r) e
    ∙ ap (λ r. r >>= λ d''. ok (none, d'')) h

free_each-one :
    (a : ℕ) (d : Disk) → a < num → d.free a ≡ false → free_each (a ∷ []) d ≡ ok (freed a d)
unfolding free_each
free_each-one a d low used = ap (λ r. r >>= λ d'. ok d') (free_desc-used a d low used)

free_each-two :
    (a b : ℕ) (d : Disk)
    → a < num
    → b < num
    → d.free a ≡ false
    → d.free b ≡ false
    → b ≢ a
    → free_each (a ∷ b ∷ []) d ≡ ok (freed b (freed a d))
unfolding free_each
free_each-two a b d lowa lowb ua ub ne =
    ap (λ r. r >>= λ d'. free_each (b ∷ []) d') (free_desc-used a d lowa ua)
    ∙ free_each-one b (freed a d) lowb (put_else d.free a b true ne ∙ ub)

one-IsKept : (a : ℕ) (d : Disk) → d.free a ≡ true → IsKept d (freed a (taken a d))
one-IsKept a d e = record {
  free = λ i. free_again d.free a i e;
  desc =
      λ i used. put_else d.desc a i _ (λ same. absurd (cc (sym e ∙ ap d.free (sym same) ∙ used)));
}

two-IsKept :
    (a b : ℕ) (d : Disk)
    → d.free a ≡ true
    → d.free b ≡ true
    → b ≢ a
    → IsKept d (freed b (freed a (taken b (taken a d))))
two-IsKept a b d ea eb ne = record {
  free = λ i. elim (Bool-cases (i == a)) [
    | inl same ↦ ground (arith, same, ap d.free (same_of i a same), ea, ne)
    | inr other ↦ elim (Bool-cases (i == b)) [
      | inl same ↦ ground (arith, same, ap d.free (same_of i b same), eb, ne)
      | inr neither ↦ rw (other, neither) refl
    ]
  ];
  desc = λ i used.
      put_else (freed a (taken b (taken a d))).desc b i _
        (λ same. absurd (cc (sym eb ∙ ap d.free (sym same) ∙ used)))
      ∙ put_else d.desc a i _ (λ same. absurd (cc (sym ea ∙ ap d.free (sym same) ∙ used)));
}

-- alloc3_desc takes three free descriptors, or it changes nothing of those in use.
pub alloc3_desc_lem :
    (d : Disk)
    → ((c : Chain) × (d' : Disk) × (alloc3_desc d
          ≡ ok (some (c.first ∷ c.second ∷ c.third ∷ []), d'))
        × IsTaken d d' c)
      ⊎ ((d' : Disk) × (alloc3_desc d ≡ ok (none, d')) × IsKept d d')
unfolding alloc3_desc alloc_each free_each
alloc3_desc_lem d = elim (alloc_desc_lem d) [
  | inr e ↦ inr (d, each_none 2 [] d d e refl, record { free = λ i. refl; desc = λ i u. refl })
  | inl (a, lowa, ea, ra) ↦
      let d1 = taken a d in
      let used1 : d1.free a ≡ false = ground arith in
      let step1 = each_some 2 a [] d d1 ra in
      elim (alloc_desc_lem d1) [
        | inr e ↦ inr (
          freed a d1,
          step1 ∙ each_none 1 (a ∷ []) d1 (freed a d1) e (free_each-one a d1 lowa used1),
          one-IsKept a d ea,
        )
        | inl (b, lowb, eb, rb) ↦
            let d2 = taken b d1 in
            let fb = still_free d.free a b eb in
            let used2 : d2.free b ≡ false = ground arith in
            let used3 : d2.free a ≡ false =
              put_else d1.free b a false (λ s. fb.1 (sym s)) ∙ used1 in
            let step2 = step1 ∙ each_some 1 b (a ∷ []) d1 d2 rb in
            elim (alloc_desc_lem d2) [
              | inr e ↦ inr (
                freed b (freed a d2),
                step2
                    ∙ each_none 0 (a ∷ b ∷ []) d2 (freed b (freed a d2)) e
                        (free_each-two a b d2 lowa lowb used3 used2 fb.1),
                two-IsKept a b d ea fb.0 fb.1,
              )
              | inl (c, lowc, ec, rc) ↦
                  let fc = still_free d1.free b c ec in
                  let fd = still_free d.free a c fc.0 in
                  inl (
                    record { first = a; second = b; third = c },
                    taken c d2,
                    step2 ∙ each_some 0 c (a ∷ b ∷ []) d2 (taken c d2) rc,
                    record {
                      first_low = lowa;
                      second_low = lowb;
                      third_low = lowc;
                      first_free = ea;
                      second_free = fb.0;
                      third_free = fd.0;
                      first_second = λ s. fb.1 (sym s);
                      first_third = λ s. fd.1 (sym s);
                      second_third = λ s. fc.1 (sym s);
                      result = refl;
                    },
                  )
            ]
      ]
]
