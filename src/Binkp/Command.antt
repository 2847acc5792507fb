-- ===== src/Binkp/Command.antt =====
-- Command frames: src/binkp/commands.c. The first byte of a command frame's data is the command,
-- and the others are its arguments.
pub mod Escape
pub mod RoundTrip
pub mod Args
mod Tests
use lib_ftn.Common.{ℕ, zero, suc, ◌+◌, ◌-◌, ◌/◌, ◌%◌, ◌*◌, Bool, true, false, not, ◌&&◌, ◌||◌}
use lib_ftn.Common.{Option, none, some, List, [], ◌∷◌, ◌++◌, length, take, ◌==◌, ltb, leb}
use lib_ftn.Common.{if◌then◌else◌, codes}
use lib_ftn.Common.Text.{is_space, is_print, is_digit, c_string, split_at_char, skip_space, strtoul}
use lib_ftn.Common.Text.{decimal, printed}
use lib_ftn.Binkp.Status.{Status, ok, invalid_command}
use lib_ftn.Binkp.Frame.{Frame, frame_init, frame_create}

-- `ftn_binkp_command_t`. A byte from the wire is cast to it unchecked, so it stays a number.
abbrev pub m_nul : ℕ
m_nul = 0

abbrev pub m_adr : ℕ
m_adr = 1

abbrev pub m_pwd : ℕ
m_pwd = 2

abbrev pub m_file : ℕ
m_file = 3

abbrev pub m_ok : ℕ
m_ok = 4

abbrev pub m_eob : ℕ
m_eob = 5

abbrev pub m_got : ℕ
m_got = 6

abbrev pub m_err : ℕ
m_err = 7

abbrev pub m_bsy : ℕ
m_bsy = 8

abbrev pub m_get : ℕ
m_get = 9

abbrev pub m_skip : ℕ
m_skip = 10

-- `args` is NULL or a buffer of `args_len` bytes with a 0 behind them.
pub record CommandFrame : Type 0 where
  pub cmd : ℕ
  pub args : Option (List ℕ)
  pub args_len : ℕ

abbrev pub command_init : CommandFrame
command_init = record { cmd = 0; args = none; args_len = 0 }

unfoldable pub command_free : CommandFrame → CommandFrame
command_free c = elim c.args [ none ↦ c | some bytes ↦ record c { args = none; args_len = 0 } ]

-- The bytes at `frame->data`. A frame whose size is not 0 has data, or C reads through NULL.
abbrev pub frame_data : Frame → List ℕ
frame_data f = elim f.payload [ none ↦ [] | some bytes ↦ bytes ]

abbrev pub parsed_command : ℕ → List ℕ → CommandFrame → CommandFrame
parsed_command n [] c = c
parsed_command n (b ∷ []) c = record { cmd = b; args = none; args_len = 0 }
parsed_command n (b ∷ a ∷ rest) c = record {
  cmd = b;
  args = some (take (n - 1) (a ∷ rest));
  args_len = n - 1;
}

-- `ftn_binkp_command_parse`
unfoldable pub command_parse : Frame → CommandFrame → Status × CommandFrame
command_parse f c =
    if not f.is_command || (f.size == 0)
    then (invalid_command, c)
    else (ok, parsed_command f.size (take f.size (frame_data f)) (command_free c))

-- The arguments as `ftn_binkp_command_create` keeps them: NULL where they are NULL or empty.
abbrev pub kept_args : Option (List ℕ) → Option (List ℕ)
kept_args none = none
kept_args (some []) = none
kept_args (some (b ∷ bs)) = some (b ∷ bs)

abbrev pub text_length : Option (List ℕ) → ℕ
text_length none = 0
text_length (some bytes) = length bytes

-- `ftn_binkp_command_create`; `text` is a C string or NULL.
unfoldable pub command_create : CommandFrame → ℕ → Option (List ℕ) → Status × CommandFrame
command_create c number text =
    (ok, record { cmd = number; args = kept_args text; args_len = text_length text })

-- `ftn_binkp_command_to_frame`
unfoldable pub command_to_frame : CommandFrame → Frame → Status × Frame
command_to_frame c f =
    let bytes : List ℕ = elim c.args [ none ↦ [] | some args ↦ take c.args_len args ] in
    frame_create f true (some ((c.cmd % 256) ∷ bytes)) (1 + c.args_len)

-- What the builders `ftn_binkp_create_m_*` share: their code behind the text of the arguments.
unfoldable pub build : ℕ → Option (List ℕ) → Frame → Status × Frame
unfolding command_create command_to_frame
build number text f = command_to_frame (command_create command_init number text).1 f

unfoldable pub create_m_nul : Frame → List ℕ → Status × Frame
create_m_nul f info = build m_nul (some info) f

unfoldable pub create_m_adr : Frame → List ℕ → Status × Frame
create_m_adr f addresses = build m_adr (some addresses) f

unfoldable pub create_m_pwd : Frame → List ℕ → Status × Frame
create_m_pwd f password = build m_pwd (some password) f

unfoldable pub create_m_ok : Frame → List ℕ → Status × Frame
create_m_ok f info = build m_ok (some info) f

unfoldable pub create_m_eob : Frame → Status × Frame
create_m_eob f = build m_eob none f

unfoldable pub create_m_err : Frame → List ℕ → Status × Frame
create_m_err f message = build m_err (some message) f

unfoldable pub create_m_bsy : Frame → List ℕ → Status × Frame
create_m_bsy f reason = build m_bsy (some reason) f
