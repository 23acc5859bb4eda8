-- ===== src/Pipe/Queue.antt =====
-- The pipe of kernel/pipe.c as a queue of at most PIPESIZE bytes.
use operationg_systems.Prelude.{
  ℕ, zero, suc, ◌+◌, ◌-◌, ◌%◌, ◌^◌, ◌≡◌, ◌<◌, ◌≤◌, ◌↔◌, refl, ap, subst, ◌∙◌, List, [], ◌∷◌, ◌++◌,
  true, arith, length, get_or, set, length-set, get_or-set_self, get_or-set_ne,
}
use operationg_systems.Pipe.{Pipe, is_full, is_empty, put_byte, first_byte, drop_byte}

-- the number of bytes in the pipe
abbrev pub count : Pipe → ℕ
count p = (p.nwrite + 2 ^ 32 - p.nread) % 2 ^ 32

-- `n` bytes of the buffer from the counter r on
abbrev pub window : List ℕ → ℕ → ℕ → List ℕ
window buf r zero = []
window buf r (suc n) = get_or buf (r % 512) 0 ∷ window buf ((r + 1) % 2 ^ 32) n

-- the bytes in the pipe, oldest first
abbrev pub contents : Pipe → List ℕ
contents p = window p.bytes p.nread (count p)

pub record IsValid (p : Pipe) : Type 0 where
  pub room : length p.bytes ≡ 512
  pub few : count p ≤ 512
  pub read_word : p.nread < 2 ^ 32
  pub write_word : p.nwrite < 2 ^ 32

pub length-window : (buf : List ℕ) (r n : ℕ) → length (window buf r n) ≡ n
length-window buf r zero = refl
length-window buf r (suc n) = ap suc (length-window buf ((r + 1) % 2 ^ 32) n)

-- Writing just past a window extends it by that byte, also where the counter or the index wraps.
window-set :
    (buf : List ℕ) (x n r i : ℕ)
    → length buf ≡ 512
    → n < 512
    → i ≡ (r + n) % 512
    → window (set buf i x) r (suc n) ≡ window buf r n ++ x ∷ []
window-set buf x zero r i h k e =
    let z : get_or (set buf i x) (r % 512) 0 ≡ x =
      subst (λ m. get_or (set buf i x) m 0 ≡ x) (omega arith)
        (get_or-set_self buf i x 0 (omega arith)) in
    ap (λ v. v ∷ []) z
window-set buf x (suc n) r i h k e =
    let z : get_or (set buf i x) (r % 512) 0 ≡ get_or buf (r % 512) 0 =
      get_or-set_ne buf i (r % 512) x 0 (λ q. omega arith) in
    let rest = window-set buf x n ((r + 1) % 2 ^ 32) i h (omega arith) (omega arith) in
    ap (λ l. get_or (set buf i x) (r % 512) 0 ∷ l) rest
    ∙ ap (λ a. a ∷ window buf ((r + 1) % 2 ^ 32) n ++ x ∷ []) z

pub put_byte-IsValid : (p : Pipe) (ch : ℕ) → IsValid p → count p < 512 → IsValid (put_byte p ch)
unfolding put_byte
put_byte-IsValid p ch v h = ground (arith, length-set p.bytes (p.nwrite % 512) ch)

pub drop_byte-IsValid : (p : Pipe) → IsValid p → 0 < count p → IsValid (drop_byte p)
unfolding drop_byte
drop_byte-IsValid p v h = ground arith

-- A byte written to a pipe that is not full goes to the end of the queue.
pub contents-put_byte :
    (p : Pipe) (ch : ℕ)
    → IsValid p
    → count p < 512
    → contents (put_byte p ch) ≡ contents p ++ ch ∷ []
unfolding put_byte
contents-put_byte p ch v h =
    let more : count (put_byte p ch) ≡ suc (count p) = ground arith in
    let grown = window-set p.bytes ch (count p) p.nread (p.nwrite % 512) v.room h (ground arith) in
    ap (window (set p.bytes (p.nwrite % 512) ch) p.nread) more ∙ grown

-- The byte that is read is the first of the queue.
pub contents-drop_byte :
    (p : Pipe) → IsValid p → 0 < count p → contents p ≡ first_byte p ∷ contents (drop_byte p)
unfolding first_byte drop_byte
contents-drop_byte p v h =
    let less : count p ≡ suc (count (drop_byte p)) = ground arith in
    ap (window p.bytes p.nread) less

-- The tests of the code, in spite of the counters' wrapping, are those of the queue.
pub is_full_iff : (p : Pipe) → IsValid p → (is_full p ≡ true) ↔ (length (contents p) ≡ 512)
unfolding is_full
is_full_iff p v = ground (arith, length-window p.bytes p.nread (count p))

pub is_empty_iff : (p : Pipe) → IsValid p → (is_empty p ≡ true) ↔ (length (contents p) ≡ 0)
unfolding is_empty
is_empty_iff p v = ground (arith, length-window p.bytes p.nread (count p))
