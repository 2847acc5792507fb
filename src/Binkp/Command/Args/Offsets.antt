-- ===== src/Binkp/Command/Args/Offsets.antt =====
-- M_GOT, M_GET and M_SKIP there and back: their builders and parsers in src/binkp/commands.c.
use lib_ftn.Common.{ℕ, ◌≤◌, ◌<◌, arith, ◌≡◌, refl, true, some}
use lib_ftn.Common.{List, [], ◌∷◌, ◌++◌, All, length, take_all, ◌==◌}
use lib_ftn.Common.Text.{c_string, split_at_char, strtoul, decimal, printed, ulong_max}
use lib_ftn.Common.Text.Decimal.{strtoul-decimal}
use lib_ftn.Common.Text.Words.{
  IsText, IsText-append, c_string-IsText, split_at_char-word, decimal-IsText,
}
use lib_ftn.Binkp.Status.{ok}
use lib_ftn.Binkp.Frame.{Frame}
use lib_ftn.Binkp.Frame.Header.{IsWellFormed}
use lib_ftn.Binkp.Command.{CommandFrame, command_parse, kept_args, m_got, m_get, m_skip}
use lib_ftn.Binkp.Command.Escape.{escape_filename, IsGraphic}
use lib_ftn.Binkp.Command.Escape.{escape_filename-IsGraphic, unescape_filename-escape_filename}
use lib_ftn.Binkp.Command.Args.{
  space, offset_text, create_offset, parse_offset, offset_args, offset_parts,
}
use lib_ftn.Binkp.Command.Args.{
  create_m_got, create_m_get, create_m_skip, parse_m_got, parse_m_get, parse_m_skip,
}
use lib_ftn.Binkp.Command.RoundTrip.{command_parse-build}
use mathlib.Core.List.{append-nil}

pub graphic-IsText : (s : List ℕ) → All IsGraphic s → IsText s
graphic-IsText [] h = tt
graphic-IsText (c ∷ s) (p, h) = (omega (arith, p.0), graphic-IsText s h)

pub graphic_past_space : (s : List ℕ) → All IsGraphic s → All (λ c. space < c) s
graphic_past_space [] h = tt
graphic_past_space (c ∷ s) (p, h) = (omega (arith, p.0), graphic_past_space s h)

-- Every character of a name is a byte, as in a C string.
abbrev pub IsName : List ℕ → Type 0
IsName name = All (λ c. c < 256) name

offset_text-IsText : (name : List ℕ) (n : ℕ) → IsName name → IsText (offset_text name n)
unfolding offset_text
offset_text-IsText name n h =
    IsText-append (escape_filename name) (space ∷ decimal n)
      (graphic-IsText (escape_filename name) (escape_filename-IsGraphic name h))
      (omega arith, decimal-IsText n)

-- A text that is not empty is kept.
pub kept_append : (s t : List ℕ) (c : ℕ) → kept_args (some (s ++ (c ∷ t))) ≡ some (s ++ (c ∷ t))
kept_append [] t c = refl
kept_append (x ∷ s) t c = refl

pub strtoul_whole : (n : ℕ) → n ≤ ulong_max → strtoul (decimal n) ≡ (n, [])
strtoul_whole n h = rw (append-nil (decimal n)) at (strtoul-decimal n [] h tt)

offset_args_lem :
    (name : List ℕ) (n : ℕ)
    → IsName name
    → n ≤ ulong_max
    → offset_args (kept_args (some (offset_text name n))) ≡ some (name, n)
unfolding offset_args offset_parts offset_text
offset_args_lem name n h max =
    let text : List ℕ = escape_filename name ++ (space ∷ decimal n) in
    let graphic = escape_filename-IsGraphic name h in
    let whole : c_string text ≡ text =
      c_string-IsText text (unfold offset_text in offset_text-IsText name n h) in
    let parts : split_at_char space text ≡ some (escape_filename name, decimal n) =
      split_at_char-word space (escape_filename name) (decimal n)
        (graphic_past_space (escape_filename name) graphic) in
    rw (
      kept_append (escape_filename name) (decimal n) space,
      whole,
      parts,
      unescape_filename-escape_filename name h,
      strtoul_whole n max,
    )

create_offset-parsed :
    (number : ℕ) (name : List ℕ) (n : ℕ) (f : Frame) (c : CommandFrame)
    → number < 256
    → IsName name
    → n ≤ ulong_max
    → length (offset_text name n) < 512
    → (g : Frame) × (create_offset number f name n ≡ (ok, g))
      × IsWellFormed g
      × (parse_offset number (command_parse g c).1 ≡ some (name, n))
unfolding create_offset parse_offset
create_offset-parsed number name n f c byte h max short =
    let text : List ℕ = offset_text name n in
    let fits : printed 512 text ≡ text = take_all 511 text (omega arith) in
    let same : (number == number) ≡ true = ground arith in
    let (g, made, well, parsed) = command_parse-build number (some text) f c byte (omega arith) in
    (g, rw (fits) made, well, rw (parsed, same) (offset_args_lem name n h max))

-- A name and a number that fit the buffer of 512 bytes come back from the frame of an M_GOT, an
-- M_GET and an M_SKIP, which is well-formed.
pub create_m_got-parse_m_got :
    (name : List ℕ) (n : ℕ) (f : Frame) (c : CommandFrame)
    → IsName name
    → n ≤ ulong_max
    → length (offset_text name n) < 512
    → ((g : Frame) × (create_m_got f name n ≡ (ok, g))
        × IsWellFormed g
        × (parse_m_got (command_parse g c).1 ≡ some (name, n)))
      × ((g : Frame) × (create_m_get f name n ≡ (ok, g))
          × IsWellFormed g
          × (parse_m_get (command_parse g c).1 ≡ some (name, n)))
      × ((g : Frame) × (create_m_skip f name n ≡ (ok, g))
          × IsWellFormed g
          × (parse_m_skip (command_parse g c).1 ≡ some (name, n)))
unfolding create_m_got create_m_get create_m_skip parse_m_got parse_m_get parse_m_skip
create_m_got-parse_m_got name n f c h max short = (
  create_offset-parsed m_got name n f c (omega arith) h max short,
  create_offset-parsed m_get name n f c (omega arith) h max short,
  create_offset-parsed m_skip name n f c (omega arith) h max short,
)
