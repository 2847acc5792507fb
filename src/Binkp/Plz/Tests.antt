-- ===== src/Binkp/Plz/Tests.antt =====
-- Runs of the theorems on compression.
use lib_ftn.Common.{
  ℕ, ◌≤◌, ◌<◌, true, false, Option, some, List, [], ◌∷◌, length, ltb, if◌then◌else◌, ◌≡◌, refl,
  arith,
}
use lib_ftn.Binkp.Plz.{
  PlzContext, plz_init, Uncompressed, z_ok, z_buf_error, data_frame, compress_frame,
  decompress_frame,
}
use lib_ftn.Binkp.Plz.Frames.{IsRestored, decompress_frame-compress_frame}

abbrev sevens : List ℕ
sevens = 7 ∷ (7 ∷ (7 ∷ []))

-- A compression that knows this text only, by its length.
abbrev pack : Option ℕ → List ℕ → Option (List ℕ)
pack level s = some (length s ∷ [])

abbrev unpack : ℕ → List ℕ → Uncompressed
unpack room s = if ltb room 3 then z_buf_error else z_ok sevens

abbrev agreed : PlzContext
agreed = record plz_init { plz_negotiated = true }

sevens-IsRestored : IsRestored unpack sevens (3 ∷ [])
sevens-IsRestored = record { restored = restored; asks = asks }
  where
    restored : (room : ℕ) → 3 ≤ room → unpack room (3 ∷ []) ≡ z_ok sevens
    restored room h = let enough : ltb room 3 ≡ false = ground arith in rw enough refl

    asks : (room : ℕ) → room < 3 → unpack room (3 ∷ []) ≡ z_buf_error
    asks room h = let little : ltb room 3 ≡ true = ground arith in rw little refl

decompress_frame-compress_frame_example :
    ((compress_frame pack agreed (data_frame sevens)).1 ≡ some (data_frame (3 ∷ [])))
    × ((decompress_frame unpack agreed (data_frame (3 ∷ []))).1 ≡ some (data_frame sevens))
decompress_frame-compress_frame_example =
    decompress_frame-compress_frame pack unpack agreed agreed (data_frame sevens) sevens (3 ∷ [])
      refl refl refl refl refl (omega arith) refl (omega arith) sevens-IsRestored
