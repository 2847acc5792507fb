-- ===== src/Binkp/Command/Args.antt =====
-- The commands about files: the builders and parsers of M_FILE, M_GOT, M_GET and M_SKIP in
-- src/binkp/commands.c. A parser gives `none` where it returns BINKP_ERROR_INVALID_COMMAND. The
-- numbers are of 64 bits; `time_t` is cast to `unsigned long` and back, so it is one of them.
pub mod Offsets
pub mod Files
use lib_ftn.Common.{
  ℕ, Bool, true, false, not, ◌||◌, Option, none, some, List, [], ◌∷◌, ◌++◌, length, ◌==◌,
}
use lib_ftn.Common.{if◌then◌else◌, take, ◌-◌}
use lib_ftn.Common.Text.{c_string, split_at_char, strtoul, decimal, printed}
use lib_ftn.Binkp.Status.{Status}
use lib_ftn.Binkp.Frame.{Frame}
use lib_ftn.Binkp.Command.{CommandFrame, build, m_file, m_got, m_get, m_skip}
use lib_ftn.Binkp.Command.Escape.{escape_filename, unescape_filename}

abbrev pub space : ℕ
space = 32

-- `ftn_binkp_file_info_t`, of a file with a name.
pub record FileInfo : Type 0 where
  pub filename : List ℕ
  pub file_size : ℕ
  pub timestamp : ℕ
  pub offset : ℕ

-- The text of `"%s %lu"`.
unfoldable pub offset_text : List ℕ → ℕ → List ℕ
offset_text filename n = escape_filename filename ++ (space ∷ decimal n)

-- What the builders of M_GOT, M_GET and M_SKIP share, with their buffer of 512 bytes.
unfoldable pub create_offset : ℕ → Frame → List ℕ → ℕ → Status × Frame
unfolding offset_text
create_offset number f filename n = build number (some (printed 512 (offset_text filename n))) f

unfoldable pub create_m_got : Frame → List ℕ → ℕ → Status × Frame
create_m_got f filename bytes_received = create_offset m_got f filename bytes_received

unfoldable pub create_m_get : Frame → List ℕ → ℕ → Status × Frame
create_m_get f filename offset = create_offset m_get f filename offset

unfoldable pub create_m_skip : Frame → List ℕ → ℕ → Status × Frame
create_m_skip f filename offset = create_offset m_skip f filename offset

offset_parts : Option (List ℕ × List ℕ) → Option (List ℕ × ℕ)
offset_parts none = none
offset_parts (some (front, back)) = some (unescape_filename front, (strtoul back).0)

offset_args : Option (List ℕ) → Option (List ℕ × ℕ)
offset_args none = none
offset_args (some args) = offset_parts (split_at_char space (c_string args))

-- What the parsers of M_GOT, M_GET and M_SKIP share.
unfoldable pub parse_offset : ℕ → CommandFrame → Option (List ℕ × ℕ)
unfolding offset_args offset_parts
parse_offset number c = if c.cmd == number then offset_args c.args else none

unfoldable pub parse_m_got : CommandFrame → Option (List ℕ × ℕ)
parse_m_got c = parse_offset m_got c

unfoldable pub parse_m_get : CommandFrame → Option (List ℕ × ℕ)
parse_m_get c = parse_offset m_get c

unfoldable pub parse_m_skip : CommandFrame → Option (List ℕ × ℕ)
parse_m_skip c = parse_offset m_skip c

-- The text of `"%s %lu %lu %lu"`.
unfoldable pub file_text : FileInfo → List ℕ
file_text i =
    escape_filename i.filename
    ++ (space ∷ decimal i.file_size ++ (space ∷ decimal i.timestamp ++ (space ∷ decimal i.offset)))

-- `ftn_binkp_create_m_file`, with its buffer of 1024 bytes.
unfoldable pub create_m_file : Frame → FileInfo → Status × Frame
unfolding file_text
create_m_file f info = build m_file (some (printed 1024 (file_text info))) f

-- From behind the timestamp: the offset, 0 where the text ends.
file_offset : List ℕ → ℕ → ℕ × List ℕ → Option FileInfo
file_offset filename size (stamp, []) =
    some (record { filename = filename; file_size = size; timestamp = stamp; offset = 0 })
file_offset filename size (stamp, c ∷ s) =
    if c == space
    then some (record {
      filename = filename;
      file_size = size;
      timestamp = stamp;
      offset = (strtoul s).0;
    })
    else none

file_stamp : List ℕ → ℕ → List ℕ → Option FileInfo
file_stamp filename size [] = none
file_stamp filename size (c ∷ s) =
    if c == space then file_offset filename size (strtoul s) else none

-- From behind the name: `strtoul` stops where it started if there is no number.
file_size_of : List ℕ → List ℕ → ℕ × List ℕ → Option FileInfo
file_size_of filename back (size, end) =
    if length end == length back then none else file_stamp filename size end

file_parts : Option (List ℕ × List ℕ) → Option FileInfo
file_parts none = none
file_parts (some (front, back)) = file_size_of (unescape_filename front) back (strtoul back)

file_args : Option (List ℕ) → Option FileInfo
file_args none = none
file_args (some args) = file_parts (split_at_char space (c_string args))

-- `ftn_binkp_parse_m_file`
unfoldable pub parse_m_file : CommandFrame → Option FileInfo
unfolding file_args file_parts file_size_of file_stamp file_offset
parse_m_file c = if c.cmd == m_file then file_args c.args else none
