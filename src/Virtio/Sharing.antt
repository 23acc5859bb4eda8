-- ===== src/Virtio/Sharing.antt =====
-- The descriptors of kernel/virtio_disk.c under any number of requests at once, which end in any order.
use operationg_systems.Prelude.{
  ℕ, ◌+◌, ◌^◌, ◌≡◌, ◌≢◌, ◌<◌, ◌≤◌, refl, ap, sym, ◌∙◌, subst, inl, inr, List, [], ◌∷◌, ◌++◌, Bool,
  true, false, ltb, if◌then◌else◌, Bool-cases, ok, panic, ◌>>=◌, ok-injective, arith,
}
use operationg_systems.Virtio.{
  put, num, Disk, Chan, Request, RwStep, asleep, submitted, done, freed, chain_of, submit,
  rw_alloced, rw_start, rw_end, virtio_disk_intr, free_chain,
}
use operationg_systems.Virtio.Descriptors.{
  Chain, IsUsed, IsTaken, IsKept, free_chain-linked, alloc3_desc_lem,
}
use operationg_systems.Virtio.Chains.{
  holds, count, AllLinked, is_self, untouched, IsLinked-split, count_split, test_else,
  submit-IsLinked, submit-else, take-exact, give-exact, intr_from_same,
}

-- The disk, and the chains of the requests that wait for the device.
pub record System : Type 0 where
  pub disk : Disk
  pub chains : List Chain

abbrev pub after_start : List Chain → RwStep → System
after_start cs (submitted a b c d) = record {
  disk = d;
  chains = record { first = a; second = b; third = c } ∷ cs;
}
after_start cs (asleep chan d) = record { disk = d; chains = cs }
after_start cs (done d) = record { disk = d; chains = cs }

-- A request begins, and waits for the device or for descriptors; the device writes a status; its interrupt; a
-- request ends.
pub data Step : System → System → Type 0 where
  started :
      {s : System} (r : Request) {w : RwStep}
      → rw_start r s.disk ≡ ok w
      → Step s (after_start s.chains w)
  answered :
      {s : System} (id status : ℕ)
      → Step s
          (record s { disk = record s.disk { info_status = put s.disk.info_status id status } })
  interrupted :
      {s : System} (ids : ℕ → ℕ) (idx : ℕ) {d : Disk}
      → virtio_disk_intr ids idx s.disk ≡ ok d
      → Step s (record s { disk = d })
  ended :
      {s : System} (xs ys : List Chain) (c : Chain) (buf : ℕ) {d : Disk}
      → s.chains ≡ xs ++ c ∷ ys
      → rw_end c.first buf s.disk ≡ ok (done d)
      → Step s (record { disk = d; chains = xs ++ ys })

pub data Reach (s : System) : System → Type 0 where
  here : Reach s s
  next : {t u : System} → Reach s t → Step t u → Reach s u

-- Every descriptor is free or in one chain, and the chains are linked.
pub record IsShared (s : System) : Type 0 where
  pub exact :
      (i : ℕ) → count s.chains i + (if s.disk.free i then 1 else 0) ≡ (if ltb i num then 1 else 0)
  pub linked : AllLinked s.disk.desc s.chains

count_free : (s : System) (i : ℕ) → IsShared s → s.disk.free i ≡ true → count s.chains i ≡ 0
count_free s i h e = ground (arith, h.exact i, e)

count_used : (s : System) (i : ℕ) → IsShared s → 0 < count s.chains i → s.disk.free i ≡ false
count_used s i h e = ground (arith, h.exact i, e)

started-IsShared :
    (s : System) (r : Request) (c : Chain) (d : Disk)
    → IsShared s
    → IsTaken s.disk d c
    → IsShared (record { disk = submit r c.first c.second c.third d; chains = c ∷ s.chains })
unfolding submit
started-IsShared s r c d h t =
    let free0 = s.disk.free in
    let free1 = put free0 c.first false in
    let free2 = put free1 c.second false in
    let e2 : free1 c.second ≡ true =
      ap (λ b. if b then false else free0 c.second)
        (test_else c.second c.first (λ e. t.first_second (sym e)))
      ∙ t.second_free in
    let e3 : free2 c.third ≡ true =
      ap (λ b. if b then false else free1 c.third)
        (test_else c.third c.second (λ e. t.second_third (sym e)))
      ∙ ap (λ b. if b then false else free0 c.third)
          (test_else c.third c.first (λ e. t.first_third (sym e)))
      ∙ t.third_free in
    let ed : (j : ℕ) → d.desc j ≡ s.disk.desc j = λ j. ap (λ x. x.desc j) t.result in
    let ef : (j : ℕ) → d.free j ≡ put free2 c.third false j = λ j. ap (λ x. x.free j) t.result in
    let distinct : (j k : ℕ) → 0 < count s.chains j → free0 k ≡ true → j ≢ k = λ j k held e same.
      absurd (omega (arith, held, count_free s k h e, ap (count s.chains) same)) in
    record {
      exact = λ i. omega (
        arith,
        h.exact i,
        ap {B = ℕ} (λ b. if b then 1 else 0) (ef i),
        take-exact free0 c.first i t.first_free,
        take-exact free1 c.second i e2,
        take-exact free2 c.third i e3,
      );
      linked = (
        submit-IsLinked r d.desc c t.first_second t.first_third t.second_third,
        untouched s.disk.desc (chain_of r c.first c.second c.third d.desc) s.chains
            (λ i held.
              submit-else r d.desc c i (distinct i c.first held t.first_free)
                (distinct i c.second held t.second_free) (distinct i c.third held t.third_free)
              ∙ ed i)
            h.linked,
      );
    }

kept-IsShared :
    (s : System) (d : Disk)
    → IsShared s
    → IsKept s.disk d
    → IsShared (record { disk = d; chains = s.chains })
kept-IsShared s d h k = record {
  exact = λ i. ap (λ b. count s.chains i + (if b then 1 else 0)) (k.free i) ∙ h.exact i;
  linked =
      untouched s.disk.desc d.desc s.chains (λ i held. k.desc i (count_used s i h held)) h.linked;
}

-- What rw_start does.
rw_start-IsShared :
    (s : System) (r : Request)
    → IsShared s
    → (w : RwStep) × (rw_start r s.disk ≡ ok w) × IsShared (after_start s.chains w)
unfolding rw_start
rw_start-IsShared s r h = elim (alloc3_desc_lem s.disk) [
  | inl (c, d, e, t) ↦ (
    submitted c.first c.second c.third (submit r c.first c.second c.third d),
    ap (λ a. a >>= λ a'. ok (rw_alloced r a')) e,
    started-IsShared s r c d h t,
  )
  | inr (d, e, k) ↦
      (asleep _ d, ap (λ a. a >>= λ a'. ok (rw_alloced r a')) e, kept-IsShared s d h k)
]

IsShared-IsUsed :
    (s : System) (xs ys : List Chain) (c : Chain)
    → IsShared s
    → s.chains ≡ xs ++ c ∷ ys
    → IsUsed s.disk c
IsShared-IsUsed s xs ys c h e =
    let at : (i : ℕ)
        → holds c i + count (xs ++ ys) i + (if s.disk.free i then 1 else 0)
          ≡ (if ltb i num then 1 else 0) =
      λ i. omega (arith, h.exact i, ap (λ cs. count cs i) e, count_split xs ys c i) in
    record {
      first_low = ground (arith, at c.first);
      second_low = ground (arith, at c.second);
      third_low = ground (arith, at c.third);
      first_used = ground (arith, at c.first);
      second_used = ground (arith, at c.second);
      third_used = ground (arith, at c.third);
      first_second = λ same. ground (arith, at c.first, same);
      first_third = λ same. ground (arith, at c.first, same);
      second_third = λ same. ground (arith, at c.second, same);
    }

-- A request that ends.
abbrev pub released : Chain → Disk → Disk
released c d =
    freed c.third
      (freed c.second (freed c.first (record d { info_buf = put d.info_buf c.first 0 })))

released-IsShared :
    (s : System) (xs ys : List Chain) (c : Chain)
    → IsShared s
    → s.chains ≡ xs ++ c ∷ ys
    → IsShared (record { disk = released c s.disk; chains = xs ++ ys })
released-IsShared s xs ys c h e =
    let u = IsShared-IsUsed s xs ys c h e in
    let free0 = s.disk.free in
    let free1 = put free0 c.first true in
    let free2 = put free1 c.second true in
    let e2 : free1 c.second ≡ false =
      ap (λ b. if b then true else free0 c.second)
        (test_else c.second c.first (λ e. u.first_second (sym e)))
      ∙ u.second_used in
    let e3 : free2 c.third ≡ false =
      ap (λ b. if b then true else free1 c.third)
        (test_else c.third c.second (λ e. u.second_third (sym e)))
      ∙ ap (λ b. if b then true else free0 c.third)
          (test_else c.third c.first (λ e. u.first_third (sym e)))
      ∙ u.third_used in
    let split : (i : ℕ) → count s.chains i ≡ holds c i + count (xs ++ ys) i =
      λ i. ap (λ cs. count cs i) e ∙ count_split xs ys c i in
    let one : (i : ℕ) → count s.chains i ≤ 1 = λ i. ground (arith, h.exact i) in
    let apart : (i k : ℕ) → 0 < count (xs ++ ys) i → 0 < holds c k → i ≢ k = λ i k held own same.
      absurd (omega (arith, held, own, one k, split k, ap (λ j. count (xs ++ ys) j) same)) in
    record {
      exact = λ i. omega (
        arith,
        h.exact i,
        split i,
        give-exact free0 c.first i u.first_used,
        give-exact free1 c.second i e2,
        give-exact free2 c.third i e3,
      );
      linked =
          untouched s.disk.desc (released c s.disk).desc (xs ++ ys)
            (λ i held.
              let n1 = apart i c.first held (omega (arith, is_self c.first)) in
              let n2 = apart i c.second held (omega (arith, is_self c.second)) in
              let n3 = apart i c.third held (omega (arith, is_self c.third)) in
              rw (test_else i c.third n3, test_else i c.second n2, test_else i c.first n1) refl)
            (IsLinked-split s.disk.desc xs ys c (subst (AllLinked s.disk.desc) e h.linked)).1;
    }

free_chain-released :
    (s : System) (xs ys : List Chain) (c : Chain)
    → IsShared s
    → s.chains ≡ xs ++ c ∷ ys
    → free_chain c.first (record s.disk { info_buf = put s.disk.info_buf c.first 0 })
      ≡ ok (released c s.disk)
free_chain-released s xs ys c h e =
    let u = IsShared-IsUsed s xs ys c h e in
    let l = (IsLinked-split s.disk.desc xs ys c (subst (AllLinked s.disk.desc) e h.linked)).0 in
    free_chain-linked (record s.disk { info_buf = put s.disk.info_buf c.first 0 }) c
      (record {
        first_low = u.first_low;
        second_low = u.second_low;
        third_low = u.third_low;
        first_used = u.first_used;
        second_used = u.second_used;
        third_used = u.third_used;
        first_second = u.first_second;
        first_third = u.first_third;
        second_third = u.second_third;
      })
      l

-- rw_end of a chain in flight sleeps while the device has the buffer, and frees the chain behind it.
rw_end_lem :
    (s : System) (xs ys : List Chain) (c : Chain) (b : ℕ)
    → IsShared s
    → s.chains ≡ xs ++ c ∷ ys
    → rw_end c.first b s.disk
      ≡ ok (if s.disk.busy b then asleep (Chan.buf_chan b) s.disk else done (released c s.disk))
unfolding rw_end
rw_end_lem s xs ys c b h e = elim (Bool-cases (s.disk.busy b)) [
  | inl busy ↦ rw busy refl
  | inr idle ↦ rw idle (ap (λ r. r >>= λ d'. ok (done d')) (free_chain-released s xs ys c h e))
]

done_disk :
    (b : Bool) (chan : Chan) (d d1 d2 : Disk)
    → ok (if b then asleep chan d else done d1) ≡ ok (done d2)
    → d1 ≡ d2
done_disk true chan d d1 d2 e = absurd (cc)
done_disk false chan d d1 d2 e = cc

Step-IsShared : {s t : System} → Step s t → IsShared s → IsShared t
unfolding virtio_disk_intr
Step-IsShared {s} (started r {w} e) h =
    let ran = rw_start-IsShared s r h in
    subst (λ w'. IsShared (after_start s.chains w')) (ok-injective (sym ran.1 ∙ e)) ran.2
Step-IsShared {s} (answered id status) h = record { exact = h.exact; linked = h.linked }
Step-IsShared {s} (interrupted ids idx {d} e) h =
    let same = intr_from_same (2 ^ 16) ids idx s.disk d e in
    kept-IsShared s d h
      (record { free = λ i. ap (λ f. f i) same.1; desc = λ i used. ap (λ f. f i) same.0 })
Step-IsShared {s} (ended xs ys c buf {d} e came) h =
    subst (λ d'. IsShared (record { disk = d'; chains = xs ++ ys }))
      (done_disk (s.disk.busy buf) (Chan.buf_chan buf) s.disk (released c s.disk) d
        (sym (rw_end_lem s xs ys c buf h e) ∙ came))
      (released-IsShared s xs ys c h e)

Reach-IsShared : {s t : System} → IsShared s → Reach s t → IsShared t
Reach-IsShared h here = h
Reach-IsShared h (next steps st) = Step-IsShared st (Reach-IsShared h steps)

-- The state that virtio_disk_init leaves.
pub record IsIdle (s : System) : Type 0 where
  pub all_free : (i : ℕ) → s.disk.free i ≡ ltb i num
  pub no_chains : s.chains ≡ []

idle-IsShared : (s : System) → IsIdle s → IsShared s
idle-IsShared s h = record {
  exact = λ i.
      ap (λ cs. count cs i + (if s.disk.free i then 1 else 0)) h.no_chains
      ∙ ap (λ b. 0 + (if b then 1 else 0)) (h.all_free i)
      ∙ omega arith;
  linked = subst (AllLinked s.disk.desc) (sym h.no_chains) tt;
}

-- From the state that virtio_disk_init leaves on, however requests begin and end and the device answers,
-- each descriptor is free or in the chain of exactly one request, so that none is lost; a request never
-- panics when it takes descriptors, and it sleeps or returns when it ends, without a panic of free_chain.
pub descriptors_shared :
    {s t : System}
    → IsIdle s
    → Reach s t
    → ((i : ℕ) → count t.chains i + (if t.disk.free i then 1 else 0) ≡ (if ltb i num then 1 else 0))
      × ((r : Request) → rw_start r t.disk ≢ panic)
      × ((xs ys : List Chain) (c : Chain) (b : ℕ)
          → t.chains ≡ xs ++ c ∷ ys
          → rw_end c.first b t.disk
            ≡ ok (
                if t.disk.busy b
                then asleep (Chan.buf_chan b) t.disk
                else done (released c t.disk)))
descriptors_shared {s} {t} idle steps =
    let h = Reach-IsShared (idle-IsShared s idle) steps in
    (
      h.exact,
      λ r e. absurd (cc (sym (rw_start-IsShared t r h).1 ∙ e)),
      λ xs ys c b e. rw_end_lem t xs ys c b h e,
    )
