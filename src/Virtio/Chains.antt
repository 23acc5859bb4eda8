-- ===== src/Virtio/Chains.antt =====
-- The chains of descriptors of kernel/virtio_disk.c that are in flight, and what changes them.
use operationg_systems.Prelude.{
  ℕ, zero, suc, ◌+◌, ◌%◌, ◌≡◌, ◌≢◌, ◌<◌, refl, ap, sym, ◌∙◌, ◌⊎◌, inl, inr, List, [], ◌∷◌, ◌++◌,
  Bool, true, false, not, ◌==◌, if◌then◌else◌, Bool-cases, Outcome, ok, panic, ◌>>=◌, ok-injective,
  >>=-eq-ok, arith,
}
use operationg_systems.Virtio.{put, num, Desc, Disk, Request, chain_of, complete, intr_from}
use operationg_systems.Virtio.Descriptors.{Chain, IsLinked}

abbrev pub is : ℕ → ℕ → ℕ
is i j = if j == i then 1 else 0

-- How often the chains in flight have descriptor i.
abbrev pub holds : Chain → ℕ → ℕ
holds c i = is c.first i + is c.second i + is c.third i

abbrev pub count : List Chain → ℕ → ℕ
count [] i = 0
count (c ∷ cs) i = holds c i + count cs i

abbrev pub AllLinked : (ℕ → Desc) → List Chain → Type 0
AllLinked desc [] = Unit {0}
AllLinked desc (c ∷ cs) = IsLinked desc c × AllLinked desc cs

same-IsLinked :
    (desc desc' : ℕ → Desc) (c : Chain)
    → desc' c.first ≡ desc c.first
    → desc' c.second ≡ desc c.second
    → desc' c.third ≡ desc c.third
    → IsLinked desc c
    → IsLinked desc' c
same-IsLinked desc desc' c e1 e2 e3 l = record {
  first_next = ap (λ x. x.flags % 2) e1 ∙ l.first_next;
  first_link = ap (λ x. x.next) e1 ∙ l.first_link;
  second_next = ap (λ x. x.flags % 2) e2 ∙ l.second_next;
  second_link = ap (λ x. x.next) e2 ∙ l.second_link;
  third_end = ap (λ x. x.flags % 2) e3 ∙ l.third_end;
}

pub is_self : (i : ℕ) → is i i ≡ 1
is_self i = ground arith

-- A change of descriptors that no chain has leaves the chains linked.
pub untouched :
    (desc desc' : ℕ → Desc) (cs : List Chain)
    → ((i : ℕ) → 0 < count cs i → desc' i ≡ desc i)
    → AllLinked desc cs
    → AllLinked desc' cs
untouched desc desc' [] same l = tt
untouched desc desc' (c ∷ cs) same l = (
  same-IsLinked desc desc' c (same c.first (omega (arith, is_self c.first)))
      (same c.second (omega (arith, is_self c.second)))
      (same c.third (omega (arith, is_self c.third))) l.0,
  untouched desc desc' cs (λ i h. same i (omega (arith, h))) l.1,
)

pub IsLinked-split :
    (desc : ℕ → Desc) (xs ys : List Chain) (c : Chain)
    → AllLinked desc (xs ++ c ∷ ys)
    → IsLinked desc c × AllLinked desc (xs ++ ys)
IsLinked-split desc [] ys c l = (l.0, l.1)
IsLinked-split desc (x ∷ xs) ys c l =
    let rest = IsLinked-split desc xs ys c l.1 in (rest.0, (l.0, rest.1))

pub count_split :
    (xs ys : List Chain) (c : Chain) (i : ℕ)
    → count (xs ++ c ∷ ys) i ≡ holds c i + count (xs ++ ys) i
count_split [] ys c i = refl
count_split (x ∷ xs) ys c i = omega (arith, count_split xs ys c i)

test_same : (i : ℕ) → i == i ≡ true
test_same i = ground arith

pub test_else : (i j : ℕ) → i ≢ j → i == j ≡ false
test_else i j ne = ground (arith, ne)

odd_flags : (write : Bool) → (if write then 1 else 3) % 2 ≡ 1
odd_flags true = refl
odd_flags false = refl

-- A request that begins.
pub submit-IsLinked :
    (r : Request) (desc : ℕ → Desc) (c : Chain)
    → c.first ≢ c.second
    → c.first ≢ c.third
    → c.second ≢ c.third
    → IsLinked (chain_of r c.first c.second c.third desc) c
unfolding chain_of
submit-IsLinked r desc c n1 n2 n3 =
    let e1 = test_else c.first c.second n1 in
    let e2 = test_else c.first c.third n2 in
    let e3 = test_else c.second c.third n3 in
    record {
      first_next = rw (e2, e1, test_same c.first) refl;
      first_link = rw (e2, e1, test_same c.first) refl;
      second_next = rw (e3, test_same c.second) (odd_flags r.write);
      second_link = rw (e3, test_same c.second) refl;
      third_end = rw (test_same c.third) refl;
    }

pub submit-else :
    (r : Request) (desc : ℕ → Desc) (c : Chain) (i : ℕ)
    → i ≢ c.first
    → i ≢ c.second
    → i ≢ c.third
    → chain_of r c.first c.second c.third desc i ≡ desc i
unfolding chain_of
submit-else r desc c i n1 n2 n3 =
    rw (test_else i c.third n3, test_else i c.second n2, test_else i c.first n1) refl

pub take-exact :
    (free : ℕ → Bool) (a i : ℕ)
    → free a ≡ true
    → is a i + (if put free a false i then 1 else 0) ≡ (if free i then 1 else 0)
take-exact free a i e = elim (Bool-cases (i == a)) [
  | inl same ↦
      let here : i ≡ a = ground (arith, same) in
      let ei : free i ≡ true = ap free here ∙ e in rw (same, ei) (omega arith)
  | inr other ↦ rw other (omega arith)
]

pub give-exact :
    (free : ℕ → Bool) (a i : ℕ)
    → free a ≡ false
    → (if put free a true i then 1 else 0) ≡ is a i + (if free i then 1 else 0)
give-exact free a i e = elim (Bool-cases (i == a)) [
  | inl same ↦
      let here : i ≡ a = ground (arith, same) in
      let ei : free i ≡ false = ap free here ∙ e in rw (same, ei) (omega arith)
  | inr other ↦ rw other (omega arith)
]

checked_ok : (b : Bool) (d d' : Disk) → (if not b then panic else ok d) ≡ ok d' → d ≡ d'
checked_ok true d d' e = cc
checked_ok false d d' e = absurd (cc)

ended_ok :
    (b : Bool) (d d' : Disk) (rest : Outcome Disk)
    → (if b then ok d else rest) ≡ ok d'
    → (d ≡ d') ⊎ (rest ≡ ok d')
ended_ok true d d' rest e = inl cc
ended_ok false d d' rest e = inr e

-- The interrupt leaves the descriptors alone.
complete_same :
    (id : ℕ) (d d' : Disk) → complete id d ≡ ok d' → (d'.desc ≡ d.desc) × (d'.free ≡ d.free)
unfolding complete
complete_same id d d' e =
    let same = checked_ok (d.info_status id == 0) _ d' e in
    (sym (ap (λ x. x.desc) same), sym (ap (λ x. x.free) same))

pub intr_from_same :
    (fuel : ℕ) (ids : ℕ → ℕ) (idx : ℕ) (d d' : Disk)
    → intr_from fuel ids idx d ≡ ok d'
    → (d'.desc ≡ d.desc) × (d'.free ≡ d.free)
unfolding intr_from
intr_from_same zero ids idx d d' e =
    let same = ok-injective e in (sym (ap (λ x. x.desc) same), sym (ap (λ x. x.free) same))
intr_from_same (suc fuel) ids idx d d' e =
    elim (ended_ok (d.used_idx == idx) d d'
      (complete (ids (d.used_idx % num)) d >>= λ d''. intr_from fuel ids idx d'') e) [
        | inl same ↦ (sym (ap (λ x. x.desc) same), sym (ap (λ x. x.free) same))
        | inr came ↦
            let parts =
              >>=-eq-ok (complete (ids (d.used_idx % num)) d) (λ d''. intr_from fuel ids idx d'')
                came in
            let first = complete_same (ids (d.used_idx % num)) d parts.0 parts.1 in
            let rest = intr_from_same fuel ids idx parts.0 d' parts.2 in
            (rest.0 ∙ first.0, rest.1 ∙ first.1)
      ]
