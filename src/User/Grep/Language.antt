-- ===== src/User/Grep/Language.antt =====
-- What a pattern of user/grep.c means, with no search in it, and that match decides it.
use operationg_systems.Prelude.{
  ℕ, ◌≡◌, ◌≢◌, ◌↔◌, ◌⊎◌, inl, inr, refl, sym, ap, List, [], ◌∷◌, ◌++◌, Bool, true, ◌||◌, ◌==◌,
  ==_iff, ==_ne, arith, Bool-cases, subst,
}
use operationg_systems.User.Grep.{star_loop, match_one, matchhere, match_from, match}

-- c stands for t
abbrev pub Accepts : ℕ → ℕ → Type 0
Accepts c t = (c ≡ b'.') ⊎ (c ≡ t)

abbrev pub AllAccepted : ℕ → List ℕ → Type 0
AllAccepted c [] = Unit {0}
AllAccepted c (t ∷ text) = Accepts c t × AllAccepted c text

-- The pattern matches a text from its beginning on: every byte stands for one byte of the text, but for a
-- byte before a star, which stands for any number of them, and a $ at the end, which asks for the end.
pub data Here : List ℕ → List ℕ → Type 0 where
  none_left : {text : List ℕ} → Here [] text
  at_end : Here (b'$' ∷ []) []
  last_one : {c t : ℕ} {text : List ℕ} → c ≢ b'$' → Accepts c t → Here (c ∷ []) (t ∷ text)
  one :
      {c d t : ℕ} {re text : List ℕ}
      → d ≢ b'*'
      → Accepts c t
      → Here (d ∷ re) text
      → Here (c ∷ d ∷ re) (t ∷ text)
  some_of :
      {c : ℕ} {re text : List ℕ} (run rest : List ℕ)
      → text ≡ run ++ rest
      → AllAccepted c run
      → Here re rest
      → Here (c ∷ b'*' ∷ re) text

-- The pattern matches at the beginning, if it begins with ^, or else anywhere.
pub data Matches : List ℕ → List ℕ → Type 0 where
  anchored : {re text : List ℕ} → Here re text → Matches (b'^' ∷ re) text
  empty : {text : List ℕ} → Matches [] text
  somewhere :
      {c : ℕ} {re text : List ℕ} (before after : List ℕ)
      → text ≡ before ++ after
      → c ≢ b'^'
      → Here (c ∷ re) after
      → Matches (c ∷ re) text

-- What a run of matchstar has found.
abbrev Starred : (List ℕ → Bool) → ℕ → List ℕ → Type 0
Starred here c text =
    (run rest : List ℕ) × (text ≡ run ++ rest) × AllAccepted c run × (here rest ≡ true)

star_loop-Starred :
    (here : List ℕ → Bool) (c : ℕ) (text : List ℕ)
    → star_loop here c text ≡ true
    → Starred here c text
unfolding star_loop
star_loop-Starred here c [] h = ([], [], refl, tt, h)
star_loop-Starred here c (t ∷ text) h = elim (Bool-cases (here (t ∷ text))) [
  | inl now ↦ ([], t ∷ text, refl, tt, now)
  | inr later ↦ elim (Bool-cases (t == c || c == b'.')) [
    | inl fits ↦
        let (run, rest, e, a, f) = star_loop-Starred here c text (ground (arith, h, later, fits)) in
        (t ∷ run, rest, ap (λ l. t ∷ l) e, (ground (arith, fits), a), f)
    | inr differs ↦ absurd (ground (arith, h, later, differs))
  ]
]

star_loop_finds :
    (here : List ℕ → Bool) (c : ℕ) (run rest : List ℕ)
    → AllAccepted c run
    → here rest ≡ true
    → star_loop here c (run ++ rest) ≡ true
unfolding star_loop
star_loop_finds here c [] [] a h = h
star_loop_finds here c [] (t ∷ rest) a h = rw h refl
star_loop_finds here c (t ∷ run) rest a h = ground (arith, a, star_loop_finds here c run rest a.1 h)

plain_byte :
    {c d : ℕ} {re text : List ℕ}
    → match_one (matchhere (d ∷ re)) c text ≡ true
    → ((ts : List ℕ) → matchhere (d ∷ re) ts ≡ true → Here (d ∷ re) ts)
    → d ≢ b'*'
    → Here (c ∷ d ∷ re) text
unfolding match_one
plain_byte {text = []} h ih ne = cc
plain_byte {text = t ∷ text} h ih ne = one ne (ground (arith, h)) (ih text (ground (arith, h)))

matchhere-Here : (re text : List ℕ) → matchhere re text ≡ true → Here re text
unfolding matchhere match_one
matchhere-Here [] text h = none_left
matchhere-Here (c ∷ []) [] h = elim (Bool-cases (c == b'$')) [
  | inl end ↦ subst (λ x. Here (x ∷ []) []) (sym ((==_iff c b'$').0 end)) at_end
  | inr other ↦ absurd (ground (arith, h, other))
]
matchhere-Here (c ∷ []) (t ∷ text) h = last_one (ground (arith, h)) (ground (arith, h))
matchhere-Here (c ∷ d ∷ re) text h = elim (Bool-cases (d == b'*')) [
  | inl star ↦
      let (run, rest, e, a, f) = star_loop-Starred (matchhere re) c text (rw star at h) in
      subst (λ x. Here (c ∷ x ∷ re) text) (sym ((==_iff d b'*').0 star))
        (some_of run rest e a (matchhere-Here re rest f))
  | inr plain ↦
      plain_byte (rw plain at h) (λ ts g. matchhere-Here (d ∷ re) ts g) (ground (arith, plain))
]

-- The $ at the end of a pattern.
dollar_end : (c : ℕ) (text : List ℕ) → c ≡ b'$' → text ≡ [] → matchhere (c ∷ []) text ≡ true
unfolding matchhere
dollar_end c text e f = rw (e, f) refl

matchhere_finds : {re text : List ℕ} → Here re text → matchhere re text ≡ true
unfolding matchhere match_one
matchhere_finds none_left = refl
matchhere_finds at_end = refl
matchhere_finds (last_one ne a) = ground (arith, ne, a)
matchhere_finds {re = c ∷ d ∷ re} {text = t ∷ text} (one ne a rest) =
    ground (arith, ne, a, matchhere_finds rest)
matchhere_finds {re = c ∷ d ∷ re} {text} (some_of run rest e a h) =
    rw e (star_loop_finds (matchhere re) c run rest a (matchhere_finds h))

match_from-suffix :
    (here : List ℕ → Bool) (text : List ℕ)
    → match_from here text ≡ true
    → (before after : List ℕ) × (text ≡ before ++ after) × (here after ≡ true)
unfolding match_from
match_from-suffix here [] h = ([], [], refl, h)
match_from-suffix here (t ∷ text) h = elim (Bool-cases (here (t ∷ text))) [
  | inl now ↦ ([], t ∷ text, refl, now)
  | inr later ↦
      let (before, after, e, f) = match_from-suffix here text (rw later at h) in
      (t ∷ before, after, ap (λ l. t ∷ l) e, f)
]

match_from_finds :
    (here : List ℕ → Bool) (before after : List ℕ)
    → here after ≡ true
    → match_from here (before ++ after) ≡ true
unfolding match_from
match_from_finds here [] [] h = h
match_from_finds here [] (t ∷ after) h = rw h refl
match_from_finds here (t ∷ before) after h = ground (arith, match_from_finds here before after h)

match-Matches : (re text : List ℕ) → match re text ≡ true → Matches re text
unfolding match
match-Matches [] text h = empty
match-Matches (c ∷ re) text h = elim (Bool-cases (c == b'^')) [
  | inl caret ↦
      subst (λ x. Matches (x ∷ re) text) (sym ((==_iff c b'^').0 caret))
        (anchored (matchhere-Here re text (rw caret at h)))
  | inr other ↦
      let (before, after, e, f) = match_from-suffix (matchhere (c ∷ re)) text (rw other at h) in
      somewhere before after e (ground (arith, other)) (matchhere-Here (c ∷ re) after f)
]

match_finds : {re text : List ℕ} → Matches re text → match re text ≡ true
unfolding match match_from matchhere
match_finds (anchored h) = matchhere_finds h
match_finds {text} empty = empty_found text
  where
    empty_found : (text : List ℕ) → match_from (matchhere []) text ≡ true
    empty_found [] = refl
    empty_found (t ∷ text) = refl
match_finds {re = c ∷ re} (somewhere before after e ne h) =
    rw (e, ==_ne c b'^' ne) (match_from_finds (matchhere (c ∷ re)) before after (matchhere_finds h))

-- grep's match returns 1 exactly if the pattern matches the text: at its beginning for a pattern that
-- begins with ^, and else anywhere. It returns on every pattern and text.
pub match_iff : (re text : List ℕ) → (match re text ≡ true) ↔ Matches re text
match_iff re text = (match-Matches re text, match_finds)
