-- ===== src/Binkp/Plz/Frames.antt =====
-- Frames that `ftn_plz_compress_frame` of src/binkp/plz.c made shorter, taken apart by
-- `ftn_plz_decompress_frame`.
use lib_ftn.Common.{ℕ, suc, ◌*◌, ◌<◌, ◌≤◌, true, false, Option, some, List}
use lib_ftn.Common.{length, ltb, leb, ◌≡◌, ◌⊎◌, inl, inr, refl, ◌∙◌, arith}
use lib_ftn.Binkp.Frame.{Frame}
use lib_ftn.Binkp.Plz.{
  PlzContext, zlib_level, Uncompressed, z_ok, z_buf_error, sent, compress_data, next_try,
  decompress_loop, received, first_room, decompress_data, data_frame, compressed_frame,
  compress_payload, compress_frame, decompressed_frame, decompress_payload, decompress_frame,
}

-- What zlib promises for data: what `compress2` made of it, `uncompress` turns back with enough room,
-- and asks for more room otherwise.
pub record IsRestored (uncompress : ℕ → List ℕ → Uncompressed) (plain packed : List ℕ)
    : Type 0 where
  pub restored : (room : ℕ) → length plain ≤ room → uncompress room packed ≡ z_ok plain
  pub asks : (room : ℕ) → room < length plain → uncompress room packed ≡ z_buf_error

module _ (uncompress : ℕ → List ℕ → Uncompressed) (plain packed : List ℕ)
    (h : IsRestored uncompress plain packed) (fits : length plain ≤ 32767) where
  enough :
      (rounds room : ℕ)
      → length plain ≤ room
      → decompress_loop uncompress packed (suc rounds) room ≡ some plain
  unfolding decompress_loop next_try
  enough rounds room k = rw (h.restored room k) refl

  doubled :
      (rounds room : ℕ)
      → room < length plain
      → decompress_loop uncompress packed (suc rounds) room
        ≡ decompress_loop uncompress packed rounds (room * 2)
  unfolding decompress_loop next_try
  doubled rounds room k =
      let small : ltb (32767 * 4) (room * 2) ≡ false = ground arith in
      rw (h.asks room k, small) refl

  in_two :
      (rounds room : ℕ)
      → length plain ≤ room * 2
      → decompress_loop uncompress packed (suc (suc rounds)) room ≡ some plain
  in_two rounds room k = elim (room_or_not room) [
    | inl less ↦ doubled (suc rounds) room less ∙ enough rounds (room * 2) k
    | inr more ↦ enough (suc rounds) room more
  ]
    where
      room_or_not : (room : ℕ) → (room < length plain) ⊎ (length plain ≤ room)
      room_or_not room = omega arith

  in_three :
      (rounds room : ℕ)
      → length plain ≤ room * 4
      → decompress_loop uncompress packed (suc (suc (suc rounds))) room ≡ some plain
  in_three rounds room k = elim (room_or_not room) [
    | inl less ↦ doubled (suc (suc rounds)) room less ∙ in_two rounds (room * 2) (omega arith)
    | inr more ↦ enough (suc (suc rounds)) room more
  ]
    where
      room_or_not : (room : ℕ) → (room < length plain) ⊎ (length plain ≤ room)
      room_or_not room = omega arith

  five_rounds : decompress_loop uncompress packed 5 (first_room (length packed)) ≡ some plain
  five_rounds = in_three 2 (first_room (length packed)) (ground arith)

-- A data frame that compression makes shorter comes back with its data, on a connection where both
-- sides agreed on compression, when zlib keeps its promise for the data, of at most 32767 bytes.
pub decompress_frame-compress_frame :
    (compress2 : Option ℕ → List ℕ → Option (List ℕ)) (uncompress : ℕ → List ℕ → Uncompressed)
    → (sender receiver : PlzContext) (f : Frame) (plain packed : List ℕ)
    → sender.plz_negotiated ≡ true
    → receiver.plz_negotiated ≡ true
    → f.is_command ≡ false
    → f.payload ≡ some plain
    → f.size ≡ length plain
    → length plain ≤ 32767
    → compress2 (zlib_level sender.compression_level) plain ≡ some packed
    → length packed < length plain
    → IsRestored uncompress plain packed
    → ((compress_frame compress2 sender f).1 ≡ some (data_frame packed))
      × ((decompress_frame uncompress receiver (data_frame packed)).1 ≡ some (data_frame plain))
unfolding compress_frame compress_payload compressed_frame compress_data sent decompress_frame
    decompress_payload decompressed_frame decompress_data received
decompress_frame-compress_frame compress2 uncompress sender receiver f plain packed s r c p n fits
      made shorter h =
    let test : leb f.size (length packed) ≡ false = ground arith in
    (rw (c, p, s, made, test) refl, rw (r, five_rounds uncompress plain packed h fits) refl)
