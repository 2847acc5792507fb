-- ===== src/Binkp/Plz.antt =====
-- Compression of frames, the PLZ option of binkp: src/binkp/plz.c. `compress2` and `uncompress` of zlib
-- are parameters. A mode or a level is its number; the streams of zlib that the context holds are never
-- initialised, so they are left out. `malloc` succeeds.
pub mod Frames
mod Tests
use lib_ftn.Common.{
  ℕ, zero, suc, ◌+◌, ◌*◌, ◌/◌, ◌%◌, ◌^◌, Bool, true, false, not, Option, none, some, List, [], ◌∷◌,
}
use lib_ftn.Common.{length, ◌==◌, ltb, leb, if◌then◌else◌, str_eq, codes, bit_and}
use lib_ftn.Config.{NetworkConfig}
use lib_ftn.Binkp.Status.{Status, ok, invalid_command, buffer_too_small, auth_failed}
use lib_ftn.Binkp.Frame.{Frame}

-- `ftn_plz_mode_t`
abbrev pub plz_none : ℕ
plz_none = 0

abbrev pub plz_supported : ℕ
plz_supported = 1

abbrev pub plz_required : ℕ
plz_required = 2

-- `ftn_plz_context_t`
pub record PlzContext : Type 0 where
  pub plz_enabled : Bool
  pub plz_negotiated : Bool
  pub local_mode : ℕ
  pub remote_mode : ℕ
  pub compression_level : ℕ
  pub bytes_sent_uncompressed : ℕ
  pub bytes_sent_compressed : ℕ
  pub bytes_received_compressed : ℕ
  pub bytes_received_uncompressed : ℕ
  pub compress_buffer_size : ℕ
  pub decompress_buffer_size : ℕ

-- `ftn_plz_init`
abbrev pub plz_init : PlzContext
plz_init = record {
  plz_enabled = false;
  plz_negotiated = false;
  local_mode = plz_none;
  remote_mode = plz_none;
  compression_level = 0;
  bytes_sent_uncompressed = 0;
  bytes_sent_compressed = 0;
  bytes_received_compressed = 0;
  bytes_received_uncompressed = 0;
  compress_buffer_size = 8192;
  decompress_buffer_size = 8192;
}

-- What `ftn_plz_free` leaves.
abbrev pub plz_free : PlzContext
plz_free = record plz_init { compress_buffer_size = 0; decompress_buffer_size = 0 }

-- `ftn_plz_set_mode`
unfoldable pub plz_set_mode : PlzContext → ℕ → PlzContext
plz_set_mode ctx mode = record ctx { local_mode = mode; plz_enabled = not (mode == plz_none) }

-- `ftn_plz_set_level`
unfoldable pub plz_set_level : PlzContext → ℕ → PlzContext
plz_set_level ctx level = record ctx { compression_level = level }

-- `ftn_plz_configure_from_network`
unfoldable pub plz_configure : PlzContext → NetworkConfig → PlzContext
plz_configure ctx n =
    plz_set_level (plz_set_mode ctx (if n.use_compression then n.plz_mode else plz_none))
      n.plz_level

-- `ftn_plz_parse_option`: the code and the mode; the level is always the default.
unfoldable pub plz_parse_option : List ℕ → Status × ℕ
plz_parse_option option =
    if str_eq option (codes "PLZ") then (ok, plz_supported) else (invalid_command, plz_none)

-- The rules of `ftn_plz_negotiate`.
unfoldable pub plz_agree : PlzContext → ℕ → Status × PlzContext
plz_agree ctx remote =
    if ctx.local_mode == plz_required
    then if remote == plz_none
      then (auth_failed, ctx)
      else (ok, record ctx { plz_negotiated = true })
    else if ctx.local_mode == plz_supported
    then if remote == plz_none then (ok, ctx) else (ok, record ctx { plz_negotiated = true })
    else if remote == plz_required
    then (auth_failed, ctx)
    else (ok, record ctx { plz_negotiated = false })

plz_negotiate_parsed : PlzContext → Status × ℕ → Status × PlzContext
unfolding plz_agree
plz_negotiate_parsed ctx (Status.ok, remote) =
    plz_agree (record ctx { remote_mode = remote }) remote
plz_negotiate_parsed ctx (code, remote) = (code, ctx)

-- `ftn_plz_negotiate`
unfoldable pub plz_negotiate : PlzContext → List ℕ → Status × PlzContext
unfolding plz_negotiate_parsed
plz_negotiate ctx option = plz_negotiate_parsed ctx (plz_parse_option option)

-- `ftn_plz_create_option`
unfoldable pub plz_create_option : PlzContext → Option (List ℕ)
plz_create_option ctx = if ctx.local_mode == plz_none then none else some (codes "PLZ")

-- The level for zlib: Z_BEST_SPEED, Z_BEST_COMPRESSION, or `none` for Z_DEFAULT_COMPRESSION.
abbrev pub zlib_level : ℕ → Option ℕ
zlib_level level = if level == 1 then some 1 else if level == 9 then some 9 else none

-- What `uncompress` of zlib answers: Z_OK with the data, Z_BUF_ERROR, or another error.
pub data Uncompressed : Type 0 where
  z_ok : List ℕ → Uncompressed
  z_buf_error z_error : Uncompressed

sent : PlzContext → ℕ → Option (List ℕ) → Status × Option (List ℕ) × PlzContext
sent ctx n none = (buffer_too_small, none, ctx)
sent ctx n (some plain) = (
  ok,
  some plain,
  record ctx {
    bytes_sent_uncompressed = (ctx.bytes_sent_uncompressed + n) % 2 ^ 32;
    bytes_sent_compressed = (ctx.bytes_sent_compressed + length plain) % 2 ^ 32;
  },
)

-- `ftn_plz_compress_data`: the code, the output and the context. `compress2` has the level and the
-- input; `none` is an error.
unfoldable pub compress_data :
    (Option ℕ → List ℕ → Option (List ℕ))
    → PlzContext
    → List ℕ
    → Status × Option (List ℕ) × PlzContext
unfolding sent
compress_data compress2 ctx input =
    if ctx.plz_negotiated
    then sent ctx (length input) (compress2 (zlib_level ctx.compression_level) input)
    else (ok, some input, ctx)

-- What follows one call of `uncompress` with `room` bytes: the last argument is the outcome with
-- twice as many.
unfoldable pub next_try : Uncompressed → ℕ → Option (List ℕ) → Option (List ℕ)
next_try (z_ok plain) room again = some plain
next_try z_buf_error room again = if ltb (32767 * 4) (room * 2) then none else again
next_try z_error room again = none

-- The loop of `ftn_plz_decompress_data` with a buffer of `room` bytes. `uncompress` has the room and
-- the input. The buffer has 8192 bytes at least and is doubled up to 131068, so five rounds do.
unfoldable pub decompress_loop : (ℕ → List ℕ → Uncompressed) → List ℕ → ℕ → ℕ → Option (List ℕ)
unfolding next_try
decompress_loop uncompress input zero room = none
decompress_loop uncompress input (suc rounds) room =
    next_try (uncompress room input) room (decompress_loop uncompress input rounds (room * 2))

received : PlzContext → ℕ → Option (List ℕ) → Status × Option (List ℕ) × PlzContext
received ctx n none = (buffer_too_small, none, ctx)
received ctx n (some plain) = (
  ok,
  some plain,
  record ctx {
    bytes_received_compressed = (ctx.bytes_received_compressed + n) % 2 ^ 32;
    bytes_received_uncompressed = (ctx.bytes_received_uncompressed + length plain) % 2 ^ 32;
  },
)

abbrev pub first_room : ℕ → ℕ
first_room n = if ltb (n * 4) 8192 then 8192 else n * 4

-- `ftn_plz_decompress_data`
unfoldable pub decompress_data :
    (ℕ → List ℕ → Uncompressed) → PlzContext → List ℕ → Status × Option (List ℕ) × PlzContext
unfolding received
decompress_data uncompress ctx input =
    if ctx.plz_negotiated
    then received ctx (length input)
        (decompress_loop uncompress input 5 (first_room (length input)))
    else (ok, some input, ctx)

-- A data frame with the header that both functions on frames write.
abbrev pub data_frame : List ℕ → Frame
data_frame plain = record {
  header0 = bit_and (length plain / 2 ^ 8) 0xFF;
  header1 = bit_and (length plain) 0xFF;
  payload = some plain;
  size = length plain;
  is_command = false;
}

-- What is sent: the shorter of the two.
compressed_frame :
    Frame → Status × Option (List ℕ) × PlzContext → Status × Option Frame × PlzContext
compressed_frame f (code, none, ctx) = (code, none, ctx)
compressed_frame f (code, some plain, ctx) =
    (code, some (if leb f.size (length plain) then f else data_frame plain), ctx)

compress_payload :
    (Option ℕ → List ℕ → Option (List ℕ))
    → PlzContext
    → Frame
    → Option (List ℕ)
    → Status × Option Frame × PlzContext
unfolding compressed_frame
compress_payload compress2 ctx f none = (invalid_command, none, ctx)
compress_payload compress2 ctx f (some plain) =
    compressed_frame f (compress_data compress2 ctx plain)

-- `ftn_plz_compress_frame`: the code, the frame it stores, and the context.
unfoldable pub compress_frame :
    (Option ℕ → List ℕ → Option (List ℕ)) → PlzContext → Frame → Status × Option Frame × PlzContext
unfolding compress_payload
compress_frame compress2 ctx f =
    if f.is_command then (ok, some f, ctx) else compress_payload compress2 ctx f f.payload

decompressed_frame : Status × Option (List ℕ) × PlzContext → Status × Option Frame × PlzContext
decompressed_frame (code, none, ctx) = (code, none, ctx)
decompressed_frame (code, some plain, ctx) = (code, some (data_frame plain), ctx)

decompress_payload :
    (ℕ → List ℕ → Uncompressed) → PlzContext → Option (List ℕ) → Status × Option Frame × PlzContext
unfolding decompressed_frame
decompress_payload uncompress ctx none = (invalid_command, none, ctx)
decompress_payload uncompress ctx (some plain) =
    decompressed_frame (decompress_data uncompress ctx plain)

-- `ftn_plz_decompress_frame`
unfoldable pub decompress_frame :
    (ℕ → List ℕ → Uncompressed) → PlzContext → Frame → Status × Option Frame × PlzContext
unfolding decompress_payload
decompress_frame uncompress ctx f =
    if f.is_command then (ok, some f, ctx) else decompress_payload uncompress ctx f.payload

-- `ftn_plz_ensure_buffer`
unfoldable pub plz_ensure_buffer : PlzContext → ℕ → PlzContext
plz_ensure_buffer ctx n = record ctx {
  compress_buffer_size = if ltb ctx.compress_buffer_size n then n else ctx.compress_buffer_size;
  decompress_buffer_size =
      if ltb ctx.decompress_buffer_size n then n else ctx.decompress_buffer_size;
}
