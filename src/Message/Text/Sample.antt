-- ===== src/Message/Text/Sample.antt =====
-- A body of two lines, for runs of the theorems on texts of src/packet.c.
use lib_ftn.Common.{ℕ, List, ◌∷◌, codes, ◌≡◌, refl, arith, str_eq, ◌++◌, All, length, ◌<◌, true}
use lib_ftn.Common.Text.{skip_space}
use lib_ftn.Trim.{trim, trim_end}
use lib_ftn.Message.Text.{is_control, not_dash, tokens, cut_tokens}
use lib_ftn.Message.Text.Spaced.{lines_full}
use lib_ftn.Message.Text.Body.{IsPlainLine}
use lib_ftn.Trim.Laws.{IsTrimmed}

-- A body of two lines.
abbrev pub two_lines : List ℕ
two_lines = codes "Hello" ++ (13 ∷ (10 ∷ codes "world"))

hello-IsPlainLine : IsPlainLine (10 ∷ codes "Hello")
unfolding is_control not_dash str_eq trim trim_end skip_space
hello-IsPlainLine = record {
  no_area = refl;
  no_control = refl;
  no_tearline = refl;
  no_origin = refl;
  no_seenby = refl;
  no_path = refl;
}

world-IsPlainLine : IsPlainLine (10 ∷ codes "world")
unfolding is_control not_dash str_eq trim trim_end skip_space
world-IsPlainLine = record {
  no_area = refl;
  no_control = refl;
  no_tearline = refl;
  no_origin = refl;
  no_seenby = refl;
  no_path = refl;
}

pub two_lines-plain : All IsPlainLine (tokens (10 ∷ two_lines))
unfolding tokens cut_tokens
two_lines-plain = (hello-IsPlainLine, (world-IsPlainLine, tt))

pub two_lines-fits : length (tokens (10 ∷ two_lines)) < 999
unfolding tokens cut_tokens
two_lines-fits = omega arith

pub two_lines-IsTrimmed : IsTrimmed two_lines
two_lines-IsTrimmed = (refl, refl)

pub two_lines-full : lines_full two_lines ≡ true
unfolding lines_full
two_lines-full = refl
