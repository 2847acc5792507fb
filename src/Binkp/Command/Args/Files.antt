-- ===== src/Binkp/Command/Args/Files.antt =====
-- M_FILE there and back: `ftn_binkp_create_m_file` and `ftn_binkp_parse_m_file` of
-- src/binkp/commands.c.
use lib_ftn.Common.{ℕ, ◌+◌, ◌≤◌, ◌<◌, arith, ◌≡◌, refl, false, some}
use lib_ftn.Common.{List, ◌∷◌, ◌++◌, length, length-append, take_all, ◌==◌}
use lib_ftn.Common.Text.{c_string, split_at_char, strtoul, decimal, printed, ulong_max}
use lib_ftn.Common.Text.Decimal.{strtoul-decimal}
use lib_ftn.Common.Text.Words.{
  IsText, IsText-append, c_string-IsText, split_at_char-word, decimal-IsText, decimal_nonempty,
}
use lib_ftn.Binkp.Status.{ok}
use lib_ftn.Binkp.Frame.{Frame}
use lib_ftn.Binkp.Frame.Header.{IsWellFormed}
use lib_ftn.Binkp.Command.{CommandFrame, command_parse, kept_args, m_file}
use lib_ftn.Binkp.Command.Escape.{escape_filename, escape_filename-IsGraphic}
use lib_ftn.Binkp.Command.Escape.{unescape_filename-escape_filename}
use lib_ftn.Binkp.Command.Args.{
  FileInfo, space, file_text, create_m_file, parse_m_file, file_args, file_parts,
}
use lib_ftn.Binkp.Command.Args.{file_size_of, file_stamp, file_offset}
use lib_ftn.Binkp.Command.Args.Offsets.{
  IsName, graphic-IsText, graphic_past_space, kept_append, strtoul_whole,
}
use lib_ftn.Binkp.Command.RoundTrip.{command_parse-build}

-- Every character of the name is a byte, and the numbers are of 64 bits.
pub record IsInfo (i : FileInfo) : Type 0 where
  pub name : IsName i.filename
  pub size_fits : i.file_size ≤ ulong_max
  pub stamp_fits : i.timestamp ≤ ulong_max
  pub offset_fits : i.offset ≤ ulong_max

-- What follows the name, and what follows the size.
abbrev stamp_text : FileInfo → List ℕ
stamp_text i = decimal i.timestamp ++ (space ∷ decimal i.offset)

abbrev size_text : FileInfo → List ℕ
size_text i = decimal i.file_size ++ (space ∷ stamp_text i)

size_text-IsText : (i : FileInfo) → IsText (size_text i)
size_text-IsText i =
    IsText-append (decimal i.file_size) (space ∷ stamp_text i) (decimal-IsText i.file_size) (
      omega arith,
      IsText-append (decimal i.timestamp) (space ∷ decimal i.offset) (decimal-IsText i.timestamp)
          (omega arith, decimal-IsText i.offset),
    )

file_text-IsText : (i : FileInfo) → IsInfo i → IsText (file_text i)
unfolding file_text
file_text-IsText i h =
    IsText-append (escape_filename i.filename) (space ∷ size_text i)
      (graphic-IsText (escape_filename i.filename) (escape_filename-IsGraphic i.filename h.name))
      (omega arith, size_text-IsText i)

file_stamp-parsed :
    (i : FileInfo) → IsInfo i → file_stamp i.filename i.file_size (space ∷ stamp_text i) ≡ some i
unfolding file_stamp file_offset
file_stamp-parsed i h = rw (
  strtoul-decimal i.timestamp (space ∷ decimal i.offset) h.stamp_fits refl,
  strtoul_whole i.offset h.offset_fits,
)

file_size-parsed :
    (i : FileInfo)
    → IsInfo i
    → file_size_of i.filename (size_text i) (strtoul (size_text i)) ≡ some i
unfolding file_size_of
file_size-parsed i h =
    let rest : List ℕ = space ∷ stamp_text i in
    let nonempty : 0 < length (decimal i.file_size) = decimal_nonempty i.file_size in
    let total : length (size_text i) ≡ length (decimal i.file_size) + length rest =
      length-append (decimal i.file_size) rest in
    let moved : (length rest == length (size_text i)) ≡ false = rw total (ground arith) in
    rw (strtoul-decimal i.file_size rest h.size_fits refl, moved) (file_stamp-parsed i h)

file_args-parsed : (i : FileInfo) → IsInfo i → file_args (kept_args (some (file_text i))) ≡ some i
unfolding file_args file_parts file_text
file_args-parsed i h =
    let text : List ℕ = escape_filename i.filename ++ (space ∷ size_text i) in
    let graphic = escape_filename-IsGraphic i.filename h.name in
    let whole : c_string text ≡ text =
      c_string-IsText text (unfold file_text in file_text-IsText i h) in
    let parts : split_at_char space text ≡ some (escape_filename i.filename, size_text i) =
      split_at_char-word space (escape_filename i.filename) (size_text i)
        (graphic_past_space (escape_filename i.filename) graphic) in
    rw
      (
        kept_append (escape_filename i.filename) (size_text i) space,
        whole,
        parts,
        unescape_filename-escape_filename i.filename h.name,
      )
      (file_size-parsed i h)

-- The name, size, timestamp and offset of a file come back from the frame of an M_FILE, which is
-- well-formed, if their text fits the buffer of 1024 bytes.
pub create_m_file-parse_m_file :
    (i : FileInfo) (f : Frame) (c : CommandFrame)
    → IsInfo i
    → length (file_text i) < 1024
    → (g : Frame) × (create_m_file f i ≡ (ok, g))
      × IsWellFormed g
      × (parse_m_file (command_parse g c).1 ≡ some i)
unfolding create_m_file parse_m_file
create_m_file-parse_m_file i f c h short =
    let text : List ℕ = file_text i in
    let fits : printed 1024 text ≡ text = take_all 1023 text (omega arith) in
    let (g, made, well, parsed) =
      command_parse-build m_file (some text) f c (omega arith) (omega arith) in
    (g, rw fits made, well, rw parsed (file_args-parsed i h))
