-- ===== src/Binkp/FileCrc/Check.antt =====
-- The check of a received file: `ftn_crc_start_file`, `ftn_crc_verify_frame` for each frame and
-- `ftn_crc_finish_file` of src/binkp/crc.c.
use lib_ftn.Common.{ℕ, ◌+◌, ◌/◌, ◌%◌, ◌^◌, ◌<◌, Bool, true, false, not, some, List, [], ◌∷◌, length}
use lib_ftn.Common.{◌≡◌, refl, arith, ◌==◌, if◌then◌else◌, All, take_all}
use lib_ftn.Crc.Crc32.{crc32_update, crc32_calculate}
use lib_ftn.Crc.Serial32.{concat, serial_crc32, update-append, crc32_calculate-serial_crc32}
use lib_ftn.Binkp.Frame.{Frame}
use lib_ftn.Binkp.FileCrc.{CrcContext, start_file, update_file, conclude, finish_file, verify_frame}

-- The data frame that carries a chunk.
abbrev pub data_frame : List ℕ → Frame
data_frame chunk = record {
  header0 = length chunk / 256;
  header1 = length chunk % 256;
  payload = some chunk;
  size = length chunk;
  is_command = false;
}

-- The context after the frames of a file, in order.
abbrev pub verify_frames : CrcContext → List (List ℕ) → CrcContext
verify_frames ctx [] = ctx
verify_frames ctx (chunk ∷ rest) = verify_frames (verify_frame ctx (data_frame chunk)).1 rest

-- The context with another CRC in progress.
abbrev in_progress : CrcContext → ℕ → CrcContext
in_progress ctx crc = record ctx { calculated_crc = crc }

verify_frame-in_progress :
    (ctx : CrcContext) (crc : ℕ) (chunk : List ℕ)
    → ctx.crc_negotiated ≡ true
    → (verify_frame (in_progress ctx crc) (data_frame chunk)).1
      ≡ in_progress ctx (crc32_update crc chunk)
unfolding verify_frame update_file
verify_frame-in_progress ctx crc chunk on = rw (on, take_all (length chunk) chunk (omega arith))

verify_frames-in_progress :
    (ctx : CrcContext) (crc : ℕ) (chunks : List (List ℕ))
    → ctx.crc_negotiated ≡ true
    → verify_frames (in_progress ctx crc) chunks
      ≡ in_progress ctx (crc32_update crc (concat chunks))
verify_frames-in_progress ctx crc [] on = unfold crc32_update in refl
verify_frames-in_progress ctx crc (c ∷ cs) on =
    rw (verify_frame-in_progress ctx crc c on, update-append crc c (concat cs))
      (verify_frames-in_progress ctx (crc32_update crc c) cs on)

-- The verdict on the frames of a file that was announced with the CRC `expected`.
abbrev pub verdict : CrcContext → List ℕ → ℕ → List (List ℕ) → Bool × CrcContext
verdict ctx filename expected chunks =
    finish_file (verify_frames (start_file ctx filename expected) chunks)

finish_file-file :
    (ctx : CrcContext) (filename : List ℕ) (expected : ℕ) (chunks : List (List ℕ))
    → ctx.crc_negotiated ≡ true
    → verdict ctx filename expected chunks ≡ (
      crc32_calculate (concat chunks) == expected,
      conclude
          (in_progress (start_file ctx filename expected) (crc32_update 0xFFFFFFFF (concat chunks)))
          (crc32_calculate (concat chunks) == expected),
    )
unfolding start_file finish_file crc32_calculate
finish_file-file ctx filename expected chunks on =
    rw (verify_frames-in_progress (start_file ctx filename expected) 0xFFFFFFFF chunks on, on)

-- A counter of type `uint32_t` that counts the file where it is hit.
abbrev pub count : Bool → ℕ → ℕ
count hit n = if hit then (n + 1) % 2 ^ 32 else n

concluded :
    (ctx : CrcContext) (valid : Bool)
    → ((conclude ctx valid).files_verified ≡ count valid ctx.files_verified)
      × ((conclude ctx valid).files_failed ≡ count (not valid) ctx.files_failed)
unfolding conclude
concluded ctx true = (refl, refl)
concluded ctx false = (refl, refl)

-- Where the check was negotiated, a file that comes in in data frames of any size is found valid
-- exactly if the bit-serial CRC-32 of all its bytes is the announced one, and it is counted once,
-- as verified or as failed.
pub finish_file-serial_crc32 :
    (ctx : CrcContext) (filename : List ℕ) (expected : ℕ) (chunks : List (List ℕ))
    → ctx.crc_negotiated ≡ true
    → All (λ b. b < 256) (concat chunks)
    → let valid = serial_crc32 (concat chunks) == expected in
      let (found, after) = verdict ctx filename expected chunks in
      (found ≡ valid)
      × (after.files_verified ≡ count valid ctx.files_verified)
      × (after.files_failed ≡ count (not valid) ctx.files_failed)
unfolding start_file
finish_file-serial_crc32 ctx filename expected chunks on bytes =
    let last =
      in_progress (start_file ctx filename expected) (crc32_update 0xFFFFFFFF (concat chunks)) in
    let (good, bad) = concluded last (serial_crc32 (concat chunks) == expected) in
    rw
      (
        finish_file-file ctx filename expected chunks on,
        crc32_calculate-serial_crc32 (concat chunks) bytes,
      )
      (refl, good, bad)
