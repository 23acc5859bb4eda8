-- ===== src/Pipe/Read.antt =====
-- piperead of kernel/pipe.c against the queue of Pipe/Queue.antt.
use operationg_systems.Prelude.{
  ℕ, zero, suc, ◌+◌, ◌≡◌, ◌≢◌, ◌<◌, ◌⊎◌, inl, inr, refl, ap, sym, ◌∙◌, List, [], ◌∷◌, ◌++◌, Bool,
  true, false, ◌&&◌, if◌then◌else◌, arith, length, take, drop, Bool-cases,
}
use operationg_systems.Pipe.{
  Pipe, PipeChan, ReadStep, is_empty, first_byte, drop_byte, copy_out, piperead,
}
use operationg_systems.Pipe.Queue.{
  count, contents, IsValid, length-window, drop_byte-IsValid, contents-drop_byte, is_empty_iff,
}

append_nil : (xs : List ℕ) → xs ++ [] ≡ xs
append_nil [] = refl
append_nil (x ∷ xs) = ap (λ l. x ∷ l) (append_nil xs)

append_one : (xs : List ℕ) (x : ℕ) (ys : List ℕ) → (xs ++ x ∷ []) ++ ys ≡ xs ++ x ∷ ys
append_one [] x ys = refl
append_one (y ∷ xs) x ys = ap (λ l. y ∷ l) (append_one xs x ys)

take_none : (n : ℕ) (xs : List ℕ) → length xs ≡ 0 → (take n xs ≡ []) × (drop n xs ≡ xs)
take_none zero xs e = (refl, refl)
take_none (suc n) [] e = (refl, refl)
take_none (suc n) (x ∷ xs) e = absurd (omega arith)

-- copy_out where every copyout succeeds: the first bytes of the queue, as many as are asked for or there.
copied :
    (left i : ℕ) (out : List ℕ) (p : Pipe)
    → IsValid p
    → ((copy_out (λ _. true) left i out p).1 ≡ out ++ take left (contents p))
      × (contents (copy_out (λ _. true) left i out p).0 ≡ drop left (contents p))
      × IsValid (copy_out (λ _. true) left i out p).0
unfolding copy_out
copied zero i out p v = (sym (append_nil out), refl, v)
copied (suc left) i out p v = elim (Bool-cases (is_empty p)) [
  | inl e ↦
      let none_left = take_none (suc left) (contents p) ((is_empty_iff p v).0 e) in
      rw e (sym (append_nil out) ∙ ap (λ l. out ++ l) (sym none_left.0), sym none_left.1, v)
  | inr e ↦
      let some_left : 0 < count p =
        ground (arith, is_empty_iff p v, length-window p.bytes p.nread (count p)) in
      let step = contents-drop_byte p v some_left in
      let rest =
        copied left (i + 1) (out ++ first_byte p ∷ []) (drop_byte p)
          (drop_byte-IsValid p v some_left) in
      rw e (
        rest.0
            ∙ append_one out (first_byte p) (take left (contents (drop_byte p)))
            ∙ ap (λ l. out ++ take (suc left) l) (sym step),
        rest.1 ∙ ap (drop (suc left)) (sym step),
        rest.2,
      )
]

-- What a step of piperead that asks for n bytes has done when it ends.
abbrev pub ReadResult : Bool → ℕ → Pipe → ReadStep → Type 0
ReadResult killed n p (ReadStep.got q out woken) =
    (out ≡ take n (contents p))
    × (contents q ≡ drop n (contents p))
    × IsValid q
    × ((contents p ≢ []) ⊎ (p.writeopen ≡ false))
    × (woken ≡ PipeChan.nwrite_chan ∷ [])
ReadResult killed n p (ReadStep.refused q) =
    (q ≡ p) × (contents p ≡ []) × (p.writeopen ≡ true) × (killed ≡ true)
ReadResult killed n p (ReadStep.asleep q) =
    (q ≡ p) × (contents p ≡ []) × (p.writeopen ≡ true) × (killed ≡ false)

nothing_in : (xs : List ℕ) → length xs ≡ 0 → xs ≡ []
nothing_in [] e = refl
nothing_in (x ∷ xs) e = absurd (omega arith)

-- The three ends of piperead, for what its tests tell.
ended :
    (killed e w : Bool) (n : ℕ) (p : Pipe)
    → IsValid p
    → is_empty p ≡ e
    → p.writeopen ≡ w
    → ReadResult killed n p (
        if e && w
        then if killed then ReadStep.refused p else ReadStep.asleep p
        else ReadStep.got
            (copy_out (λ _. true) n 0 [] p).0
            (copy_out (λ _. true) n 0 [] p).1
            (PipeChan.nwrite_chan ∷ []))
ended killed false w n p v he hw =
    let r = copied n 0 [] p v in
    (r.0, r.1, r.2, inl (λ none_in. absurd (ground (arith, is_empty_iff p v, none_in))), refl)
ended killed true false n p v he hw = let r = copied n 0 [] p v in (r.0, r.1, r.2, inr hw, refl)
ended true true true n p v he hw =
    (refl, nothing_in (contents p) ((is_empty_iff p v).0 he), hw, refl)
ended false true true n p v he hw =
    (refl, nothing_in (contents p) ((is_empty_iff p v).0 he), hw, refl)

-- A step of piperead on a valid pipe into memory that copyout can write takes the first n bytes of the
-- queue, or all of them where there are fewer, off its front in order, and wakes the writers; it returns
-- none only with n = 0 or at the end of the file, an empty queue whose write end is closed. On an empty
-- queue whose write end is open it leaves the pipe as it is, and returns -1 where the process is killed
-- and sleeps where it is not.
pub piperead_lem :
    (killed : Bool) (n : ℕ) (p : Pipe)
    → IsValid p
    → ReadResult killed n p (piperead (λ _. true) killed n p)
unfolding piperead
piperead_lem killed n p v = ended killed (is_empty p) p.writeopen n p v refl refl
