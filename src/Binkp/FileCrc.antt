-- ===== src/Binkp/FileCrc.antt =====
-- The CRC option of binkp and the check of a received file: the context of src/binkp/crc.c.
-- Counters are of type `uint32_t`. Pointers that the code tests for NULL first are never NULL
-- here, unless written as an `Option`; `malloc` succeeds.
pub mod Negotiation
pub mod Check
mod Tests
use lib_ftn.Common.{
  ℕ, ◌+◌, ◌%◌, ◌^◌, Bool, true, false, not, ◌||◌, Option, none, some, List, take, ◌==◌,
}
use lib_ftn.Common.{if◌then◌else◌, str_eq, codes, bit_xor}
use lib_ftn.Crc.Crc32.{crc32_update}
use lib_ftn.Binkp.Status.{Status, ok, invalid_command, auth_failed}
use lib_ftn.Binkp.Frame.{Frame}

-- `ftn_crc_mode_t`
pub data CrcMode : Type 0 where
  mode_none mode_supported mode_required : CrcMode

-- `ftn_crc_algorithm_t`
pub data CrcAlgorithm : Type 0 where
  algorithm_none algorithm_crc32 : CrcAlgorithm

-- `ftn_crc_context_t`
pub record CrcContext : Type 0 where
  pub crc_enabled : Bool
  pub crc_negotiated : Bool
  pub local_mode : CrcMode
  pub remote_mode : CrcMode
  pub algorithm : CrcAlgorithm
  pub current_filename : Option (List ℕ)
  pub calculated_crc : ℕ
  pub expected_crc : ℕ
  pub crc_valid : Bool
  pub files_verified : ℕ
  pub files_failed : ℕ
  pub bytes_verified : ℕ

-- `ftn_crc_init`, and what `ftn_crc_free` leaves.
unfoldable pub crc_init : CrcContext
crc_init = record {
  crc_enabled = false;
  crc_negotiated = false;
  local_mode = mode_none;
  remote_mode = mode_none;
  algorithm = algorithm_none;
  current_filename = none;
  calculated_crc = 0;
  expected_crc = 0;
  crc_valid = false;
  files_verified = 0;
  files_failed = 0;
  bytes_verified = 0;
}

-- `mode != CRC_MODE_NONE`
unfoldable pub is_offered : CrcMode → Bool
is_offered mode_none = false
is_offered mode = true

unfoldable pub set_mode : CrcContext → CrcMode → CrcContext
unfolding is_offered
set_mode ctx mode = record ctx {
  local_mode = mode;
  crc_enabled = is_offered mode;
  algorithm = if is_offered mode then algorithm_crc32 else ctx.algorithm;
}

-- `ftn_crc_parse_option`: the code, the mode and the algorithm.
unfoldable pub parse_option : List ℕ → Status × CrcMode × CrcAlgorithm
parse_option option =
    if str_eq option (codes "CRC")
    then (ok, mode_supported, algorithm_crc32)
    else (invalid_command, mode_none, algorithm_none)

-- The rules of `ftn_crc_negotiate` for the local mode and the remote one.
unfoldable pub agree : CrcContext → CrcMode → CrcMode → CrcAlgorithm → Status × CrcContext
agree ctx mode_required mode_none algorithm = (auth_failed, ctx)
agree ctx mode_required remote algorithm =
    (ok, record ctx { crc_negotiated = true; algorithm = algorithm })
agree ctx mode_supported mode_none algorithm = (ok, ctx)
agree ctx mode_supported remote algorithm =
    (ok, record ctx { crc_negotiated = true; algorithm = algorithm })
agree ctx mode_none mode_required algorithm = (auth_failed, ctx)
agree ctx mode_none remote algorithm = (ok, record ctx { crc_negotiated = false })

negotiate_parsed : CrcContext → Status × CrcMode × CrcAlgorithm → Status × CrcContext
negotiate_parsed ctx (Status.ok, remote, algorithm) =
    agree (record ctx { remote_mode = remote }) ctx.local_mode remote algorithm
negotiate_parsed ctx (code, remote, algorithm) = (code, ctx)

-- `ftn_crc_negotiate`
unfoldable pub negotiate : CrcContext → List ℕ → Status × CrcContext
unfolding negotiate_parsed agree
negotiate ctx option = negotiate_parsed ctx (parse_option option)

-- `ftn_crc_create_option`: NULL where the mode is off.
unfoldable pub create_option : CrcContext → Option (List ℕ)
create_option ctx = elim ctx.local_mode [ mode_none ↦ none | _ ↦ some (codes "CRC") ]

unfoldable pub start_file : CrcContext → List ℕ → ℕ → CrcContext
start_file ctx filename expected = record ctx {
  current_filename = some filename;
  expected_crc = expected;
  calculated_crc = 0xFFFFFFFF;
  crc_valid = false;
}

-- `ftn_crc_update_file` over the first `len` bytes of the buffer.
unfoldable pub update_file : CrcContext → Option (List ℕ) → ℕ → Status × CrcContext
update_file ctx none len = (invalid_command, ctx)
update_file ctx (some bytes) len =
    if ctx.crc_negotiated
    then (ok, record ctx { calculated_crc = crc32_update ctx.calculated_crc (take len bytes) })
    else (ok, ctx)

-- The verdict of `ftn_crc_finish_file` entered in the context.
unfoldable pub conclude : CrcContext → Bool → CrcContext
conclude ctx true = record ctx {
  crc_valid = true;
  files_verified = (ctx.files_verified + 1) % 2 ^ 32;
}
conclude ctx false = record ctx {
  crc_valid = false;
  files_failed = (ctx.files_failed + 1) % 2 ^ 32;
}

-- `ftn_crc_finish_file`: what it stores in `crc_valid`, and the context.
unfoldable pub finish_file : CrcContext → Bool × CrcContext
unfolding conclude
finish_file ctx =
    if ctx.crc_negotiated
    then (
      bit_xor ctx.calculated_crc 0xFFFFFFFF == ctx.expected_crc,
      conclude ctx (bit_xor ctx.calculated_crc 0xFFFFFFFF == ctx.expected_crc),
    )
    else (true, ctx)

-- `ftn_crc_verify_frame`
unfoldable pub verify_frame : CrcContext → Frame → Status × CrcContext
unfolding update_file
verify_frame ctx f =
    if not ctx.crc_negotiated || f.is_command then (ok, ctx) else update_file ctx f.payload f.size
