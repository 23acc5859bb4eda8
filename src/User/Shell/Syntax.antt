-- ===== src/User/Shell/Syntax.antt =====
-- The grammar of user/sh.c: its sentences as trees, their bytes, and the command that each stands for.
use operationg_systems.Prelude.{
  ℕ, zero, suc, ◌<◌, ◌≢◌, ◌≡◌, List, [], ◌∷◌, ◌++◌, Bool, true, ◌||◌, not, length,
}
use operationg_systems.User.Shell.{is_space, is_symbol, Cmd, exec, redir, pipe, list, back}

pub data Direction : Type 0 where
  from to append : Direction

pub record Redir : Type 0 where
  pub way : Direction
  pub file : List ℕ

-- A word of a command, and the redirections behind it.
pub record Arg : Type 0 where
  pub word : List ℕ
  pub redirs : List Redir

-- A line is pipelines with semicolons between them, each with its ampersands; a part of a pipeline is a
-- simple command or a line in parentheses.
mutual
  pub data Line : Type 0 where
    last : Pipeline → ℕ → Line
    seq : Pipeline → ℕ → Line → Line

  pub data Pipeline : Type 0 where
    single : Part → Pipeline
    piped : Part → Pipeline → Pipeline

  pub data Part : Type 0 where
    simple : List Redir → List Arg → Part
    block : Line → List Redir → Part

abbrev pub op : Direction → List ℕ
op from = b'<' ∷ []
op to = b'>' ∷ []
op append = b'>' ∷ b'>' ∷ []

-- The bytes of a sentence, with the spaces `gap` behind every token.
abbrev pub print_redirs : List ℕ → List Redir → List ℕ
print_redirs gap [] = []
print_redirs gap (r ∷ rs) = op r.way ++ (gap ++ (r.file ++ (gap ++ print_redirs gap rs)))

abbrev pub print_args : List ℕ → List Arg → List ℕ
print_args gap [] = []
print_args gap (a ∷ args) = a.word ++ (gap ++ (print_redirs gap a.redirs ++ print_args gap args))

abbrev pub print_backs : List ℕ → ℕ → List ℕ
print_backs gap zero = []
print_backs gap (suc n) = b'&' ∷ (gap ++ print_backs gap n)

unfoldable mutual
  pub print_line : List ℕ → Line → List ℕ
  print_line gap (last p n) = print_pipeline gap p ++ print_backs gap n
  print_line gap (seq p n l) =
      print_pipeline gap p ++ (print_backs gap n ++ b';' ∷ (gap ++ print_line gap l))

  pub print_pipeline : List ℕ → Pipeline → List ℕ
  print_pipeline gap (single p) = print_part gap p
  print_pipeline gap (piped p q) = print_part gap p ++ b'|' ∷ (gap ++ print_pipeline gap q)

  pub print_part : List ℕ → Part → List ℕ
  print_part gap (simple rs args) = print_redirs gap rs ++ print_args gap args
  print_part gap (block l rs) =
      b'(' ∷ (gap ++ (print_line gap l ++ b')' ∷ (gap ++ print_redirs gap rs)))

-- The commands. A redirection opens its file for reading as 0, or for writing as 1, cut to nothing or kept.
abbrev pub redirect : Cmd → Redir → Cmd
redirect cmd r = elim r.way [
  | from ↦ redir cmd r.file 0 0
  | to ↦ redir cmd r.file 0x601 1
  | append ↦ redir cmd r.file 0x201 1
]

abbrev pub redirect_all : Cmd → List Redir → Cmd
redirect_all cmd [] = cmd
redirect_all cmd (r ∷ rs) = redirect_all (redirect cmd r) rs

abbrev pub words_of : List Arg → List (List ℕ)
words_of [] = []
words_of (a ∷ args) = a.word ∷ words_of args

abbrev pub redirs_of : List Arg → List Redir
redirs_of [] = []
redirs_of (a ∷ args) = a.redirs ++ redirs_of args

abbrev pub in_back : ℕ → Cmd → Cmd
in_back zero cmd = cmd
in_back (suc n) cmd = in_back n (back cmd)

unfoldable mutual
  pub line_cmd : Line → Cmd
  line_cmd (last p n) = in_back n (pipeline_cmd p)
  line_cmd (seq p n l) = list (in_back n (pipeline_cmd p)) (line_cmd l)

  pub pipeline_cmd : Pipeline → Cmd
  pipeline_cmd (single p) = part_cmd p
  pipeline_cmd (piped p q) = pipe (part_cmd p) (pipeline_cmd q)

  pub part_cmd : Part → Cmd
  part_cmd (simple rs args) = redirect_all (exec (words_of args)) (rs ++ redirs_of args)
  part_cmd (block l rs) = redirect_all (line_cmd l) rs

-- A word has a byte, and neither spaces nor symbols; a command has fewer than MAXARGS words.
abbrev pub plain : ℕ → Bool
plain c = not (is_space c || is_symbol c)

abbrev pub AllPlain : List ℕ → Type 0
AllPlain [] = Unit {0}
AllPlain (c ∷ w) = (plain c ≡ true) × AllPlain w

abbrev pub IsWord : List ℕ → Type 0
IsWord w = AllPlain w × (w ≢ [])

abbrev pub AllSpaces : List ℕ → Type 0
AllSpaces [] = Unit {0}
AllSpaces (c ∷ gap) = (is_space c ≡ true) × AllSpaces gap

abbrev pub HaveFiles : List Redir → Type 0
HaveFiles [] = Unit {0}
HaveFiles (r ∷ rs) = IsWord r.file × HaveFiles rs

abbrev pub AreArgs : List Arg → Type 0
AreArgs [] = Unit {0}
AreArgs (a ∷ args) = IsWord a.word × HaveFiles a.redirs × AreArgs args

unfoldable mutual
  pub IsLine : Line → Type 0
  IsLine (last p n) = IsPipeline p
  IsLine (seq p n l) = IsPipeline p × IsLine l

  pub IsPipeline : Pipeline → Type 0
  IsPipeline (single p) = IsPart p
  IsPipeline (piped p q) = IsPart p × IsPipeline q

  pub IsPart : Part → Type 0
  IsPart (simple rs args) = HaveFiles rs × AreArgs args × (length args < 10)
  IsPart (block l rs) = IsLine l × HaveFiles rs
