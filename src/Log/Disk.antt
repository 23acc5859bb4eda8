-- ===== src/Log/Disk.antt =====
-- What the loops of kernel/log.c read and write: the blocks of the log, and where they belong.
use operationg_systems.Prelude.{
  ℕ, suc, ◌+◌, ◌≡◌, ◌<◌, ◌≤◌, refl, ap, ◌∙◌, List, [], ◌∷◌, ◌++◌, false, ◌==◌, if◌then◌else◌, arith,
  ◌⊎◌, Option, some, none, length, take, drop,
}
use operationg_systems.Log.{Log, Block, Blocks, absorbed, put_head, get_head}

-- a block outside the log
abbrev pub IsHome : Log → ℕ → Type 0
IsHome l b = (b < l.start) ⊎ (l.start + l.size ≤ b)

abbrev pub Homes : Log → List ℕ → Type 0
Homes l [] = Unit {0}
Homes l (b ∷ bs) = IsHome l b × Homes l bs

abbrev pub Distinct : List ℕ → Type 0
Distinct [] = Unit {0}
Distinct (b ∷ bs) = (absorbed b bs ≡ false) × Distinct bs

-- what the log from block `s` on holds for block x, if it holds anything
abbrev pub logged : Blocks → ℕ → List ℕ → ℕ → Option Block
logged v s [] x = none
logged v s (b ∷ bs) x = if b == x then some (v s) else logged v (s + 1) bs x

abbrev pub pick : Option Block → Block → Block
pick none d = d
pick (some v) d = v

-- the log from block `s` on holds the blocks of the list as they are in v
abbrev pub Copied : Blocks → ℕ → List ℕ → Blocks → Type 0
Copied d s [] v = Unit {0}
Copied d s (b ∷ bs) v = (d s ≡ v b) × Copied d (s + 1) bs v

abbrev pub All : (Blocks → Type 0) → List Blocks → Type 0
All P [] = Unit {0}
All P (d ∷ ds) = P d × All P ds

pub All-map :
    (P Q : Blocks → Type 0) (ds : List Blocks) → ((d : Blocks) → P d → Q d) → All P ds → All Q ds
All-map P Q [] f a = tt
All-map P Q (d ∷ ds) f a = (f d a.0, All-map P Q ds f a.1)

pub logged-absent :
    (v : Blocks) (s : ℕ) (bs : List ℕ) (x : ℕ) → absorbed x bs ≡ false → logged v s bs x ≡ none
unfolding absorbed
logged-absent v s [] x h = refl
logged-absent v s (b ∷ bs) x h = ground (arith, logged-absent v (s + 1) bs x)

pub logged-same :
    (v w : Blocks) (s : ℕ) (bs : List ℕ) (x : ℕ)
    → ((y : ℕ) → s ≤ y → y < s + length bs → v y ≡ w y)
    → logged v s bs x ≡ logged w s bs x
logged-same v w s [] x same = refl
logged-same v w s (b ∷ bs) x same =
    ground
      (arith, same s, logged-same v w (s + 1) bs x (λ y a c. same y (omega arith) (omega arith)))

pub logged-Copied :
    (d : Blocks) (s : ℕ) (bs : List ℕ) (v : Blocks) (x : ℕ)
    → Copied d s bs v
    → logged d s bs x ≡ (if absorbed x bs then some (v x) else none)
unfolding absorbed
logged-Copied d s [] v x c = refl
logged-Copied d s (b ∷ bs) v x c = ground (arith, logged-Copied d (s + 1) bs v x c.1)

pub Copied-same :
    (d e : Blocks) (s : ℕ) (bs : List ℕ) (v : Blocks)
    → ((y : ℕ) → s ≤ y → y < s + length bs → e y ≡ d y)
    → Copied d s bs v
    → Copied e s bs v
Copied-same d e s [] v same c = tt
Copied-same d e s (b ∷ bs) v same c = (
  same s (omega arith) (omega arith) ∙ c.0,
  Copied-same d e (s + 1) bs v (λ y a h. same y (omega arith) (omega arith)) c.1,
)

take-append : (xs ys : List ℕ) → take (length xs) (xs ++ ys) ≡ xs
take-append [] ys = refl
take-append (x ∷ xs) ys = ap (◌∷◌ x) (take-append xs ys)

-- Reading the header block that write_head wrote gives back the block numbers.
pub get_head-put_head : (old : Block) (lh : List ℕ) → get_head (put_head old lh) ≡ lh
unfolding get_head put_head
get_head-put_head old lh = take-append lh (drop (suc (length lh)) old)

pub absorbed-home :
    (l : Log) (bs : List ℕ) (x : ℕ)
    → Homes l bs
    → l.start ≤ x
    → x < l.start + l.size
    → absorbed x bs ≡ false
unfolding absorbed
absorbed-home l [] x h a b = refl
absorbed-home l (c ∷ bs) x h a b = ground (arith, absorbed-home l bs x h.1 a b)
