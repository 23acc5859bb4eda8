-- ===== src/Pipe/Write.antt =====
-- pipewrite of kernel/pipe.c against the queue of Pipe/Queue.antt.
use operationg_systems.Prelude.{
  ℕ, zero, suc, ◌+◌, ◌≡◌, ◌<◌, ◌⊎◌, inl, inr, refl, ap, sym, ◌∙◌, List, [], ◌∷◌, ◌++◌, Bool, true,
  false, not, ◌||◌, Option, none, some, arith, length, Bool-cases, Option-cases,
}
use operationg_systems.Pipe.{Pipe, PipeChan, WriteStep, is_full, put_byte, pipewrite}
use operationg_systems.Pipe.Queue.{
  count, contents, IsValid, length-window, put_byte-IsValid, contents-put_byte, is_full_iff,
}

-- The bytes of the user's memory from i up to j, all of which copyin finds.
pub data Sent (src : ℕ → Option ℕ) : ℕ → List ℕ → ℕ → Type 0 where
  done : (i : ℕ) → Sent src i [] i
  next : (i j c : ℕ) (cs : List ℕ) → src i ≡ some c → Sent src (i + 1) cs j → Sent src i (c ∷ cs) j

-- A valid pipe whose bytes are those of p and then those of the user's memory from i up to j.
abbrev pub HasSent : (ℕ → Option ℕ) → ℕ → Pipe → Pipe → ℕ → Type 0
HasSent src i p q j = (cs : List ℕ) × Sent src i cs j × (contents q ≡ contents p ++ cs) × IsValid q

-- What a step of pipewrite that starts with i and writes up to n - 1 has done when it ends.
abbrev pub WriteResult : (ℕ → Option ℕ) → (ℕ → Bool) → ℕ → ℕ → Pipe → WriteStep → Type 0
WriteResult src killed left i p (WriteStep.written q j woken) =
    HasSent src i p q j
    × ((j ≡ i + left) ⊎ ((j < i + left) × (src j ≡ none)))
    × (woken ≡ PipeChan.nread_chan ∷ [])
WriteResult src killed left i p (WriteStep.refused q) =
    (j : ℕ) × HasSent src i p q j × (j < i + left) × ((p.readopen ≡ false) ⊎ (killed j ≡ true))
WriteResult src killed left i p (WriteStep.asleep q j woken) =
    HasSent src i p q j
    × (j < i + left)
    × (length (contents q) ≡ 512)
    × (woken ≡ PipeChan.nread_chan ∷ [])

append_assoc : (xs ys zs : List ℕ) → (xs ++ ys) ++ zs ≡ xs ++ (ys ++ zs)
append_assoc [] ys zs = refl
append_assoc (x ∷ xs) ys zs = ap (λ l. x ∷ l) (append_assoc xs ys zs)

append_nil : (xs : List ℕ) → xs ++ [] ≡ xs
append_nil [] = refl
append_nil (x ∷ xs) = ap (λ l. x ∷ l) (append_nil xs)

module _ (src : ℕ → Option ℕ) (killed : ℕ → Bool) where
  nothing_sent : (i : ℕ) (p : Pipe) → IsValid p → HasSent src i p p i
  nothing_sent i p v = ([], Sent.done i, sym (append_nil (contents p)), v)

  one_sent :
      (i j c : ℕ) (p q : Pipe)
      → src i ≡ some c
      → contents (put_byte p c) ≡ contents p ++ c ∷ []
      → HasSent src (i + 1) (put_byte p c) q j
      → HasSent src i p q j
  one_sent i j c p q e g (cs, s, h, v) = (
    c ∷ cs,
    Sent.next i j c cs e s,
    h ∙ ap (λ l. l ++ cs) g ∙ append_assoc (contents p) (c ∷ []) cs,
    v,
  )

  -- One byte more in front of a step.
  sent_first :
      (left i c : ℕ) (p : Pipe) (w : WriteStep)
      → src i ≡ some c
      → contents (put_byte p c) ≡ contents p ++ c ∷ []
      → (put_byte p c).readopen ≡ p.readopen
      → WriteResult src killed left (i + 1) (put_byte p c) w
      → WriteResult src killed (suc left) i p w
  sent_first left i c p (WriteStep.written q j woken) e g o (h, t, wk) =
      (one_sent i j c p q e g h, ground (arith, t), wk)
  sent_first left i c p (WriteStep.refused q) e g o (j, h, l, t) =
      (j, one_sent i j c p q e g h, omega arith, elim t [ inl r ↦ inl (sym o ∙ r) | inr k ↦ inr k ])
  sent_first left i c p (WriteStep.asleep q j woken) e g o (h, l, full, wk) =
      (one_sent i j c p q e g h, omega arith, full, wk)

  -- A step of pipewrite on a valid pipe appends to the queue the bytes of the user's memory from i up to
  -- j, in order and nothing else, and the pipe stays valid. It returns j at n, or before n where copyin
  -- fails; it returns -1 only before n, with the read end closed or the process killed; it sleeps with j
  -- before n, and only when the queue holds 512 bytes. When it returns j or sleeps it wakes the readers.
  pub pipewrite_lem :
      (left i : ℕ) (p : Pipe)
      → IsValid p
      → WriteResult src killed left i p (pipewrite src killed left i p)
  unfolding pipewrite put_byte
  pipewrite_lem zero i p v = (nothing_sent i p v, inl (omega arith), refl)
  pipewrite_lem (suc left) i p v = elim (Bool-cases (not p.readopen || killed i)) [
    | inl stop ↦ rw stop (i, nothing_sent i p v, omega arith, ground (arith, stop))
    | inr go ↦ elim (Bool-cases (is_full p)) [
      | inl full ↦ rw (go, full) (nothing_sent i p v, omega arith, (is_full_iff p v).0 full, refl)
      | inr room ↦ elim (Option-cases (src i)) [
        | inl e ↦ rw (go, room, e) (nothing_sent i p v, inr (omega arith, e), refl)
        | inr (c, e) ↦
            let less : count p < 512 =
              ground (arith, is_full_iff p v, length-window p.bytes p.nread (count p), v.few) in
            rw (go, room, e)
              (sent_first left i c p (pipewrite src killed left (i + 1) (put_byte p c)) e
                (contents-put_byte p c v less) refl
                (pipewrite_lem left (i + 1) (put_byte p c) (put_byte-IsValid p c v less)))
      ]
    ]
  ]
