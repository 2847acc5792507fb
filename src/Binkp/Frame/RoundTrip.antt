-- ===== src/Binkp/Frame/RoundTrip.antt =====
-- `ftn_binkp_frame_parse` against `ftn_binkp_frame_serialize`, both of src/binkp.c.
use lib_ftn.Common.{ℕ, zero, suc, ◌+◌, ◌≤◌, ◌<◌, arith, ◌≡◌, ◌≢◌, refl, ap, ◌∙◌}
use lib_ftn.Common.{true, false, Option, none, some, List, [], ◌∷◌, ◌++◌, length, drop}
use lib_ftn.Common.{ltb, length-append, take-append, take_all, lt→ltb}
use lib_ftn.Binkp.Status.{Status, ok, frame_too_large, buffer_too_small}
use lib_ftn.Binkp.Frame.{Frame, max_frame_size, header_size, header_word, command_flag, word_size}
use lib_ftn.Binkp.Frame.{copied, given, frame_parse, frame_body, frame_serialize}
use lib_ftn.Binkp.Frame.Header.{HasSize, IsWellFormed, word_size_lem}

word_size_bound : (w : ℕ) → word_size w ≤ max_frame_size
word_size_bound w = omega (arith, word_size_lem w)

-- The test for a frame that is too large.
pub not_too_large : (w : ℕ) → ltb max_frame_size (word_size w) ≡ false
not_too_large w = let h = word_size_bound w in ground arith

-- The outcomes of a parse, in the order in which the code tests for them.
pub frame_parse_short :
    (b0 b1 : ℕ) (rest : List ℕ) (f : Frame)
    → length rest < word_size (header_word b0 b1)
    → frame_parse (b0 ∷ b1 ∷ rest) f
      ≡ (buffer_too_small, record f { is_command = command_flag (header_word b0 b1) })
unfolding frame_parse
frame_parse_short b0 b1 rest f h =
    let short : ltb (length (b0 ∷ b1 ∷ rest)) (header_size + word_size (header_word b0 b1)) ≡ true =
      lt→ltb _ _ (omega arith) in
    rw (not_too_large (header_word b0 b1), short)

pub frame_parse_whole :
    (b0 b1 : ℕ) (rest : List ℕ) (f : Frame)
    → word_size (header_word b0 b1) ≤ length rest
    → frame_parse (b0 ∷ b1 ∷ rest) f ≡ (
      ok,
      record {
        header0 = b0;
        header1 = b1;
        payload = copied (word_size (header_word b0 b1)) rest;
        size = word_size (header_word b0 b1);
        is_command = command_flag (header_word b0 b1);
      },
    )
unfolding frame_parse
frame_parse_whole b0 b1 rest f h =
    let fits : ltb (length (b0 ∷ b1 ∷ rest)) (header_size + word_size (header_word b0 b1)) ≡ false =
      ground arith in
    rw (not_too_large (header_word b0 b1), fits)

-- No input makes `ftn_binkp_frame_parse` return `BINKP_ERROR_FRAME_TOO_LARGE`: fifteen bits of
-- size never exceed the largest frame.
pub frame_parse-ne-frame_too_large :
    (buffer : List ℕ) (f : Frame) → (frame_parse buffer f).0 ≢ frame_too_large
unfolding frame_parse
frame_parse-ne-frame_too_large [] f h = cc
frame_parse-ne-frame_too_large (b0 ∷ []) f h = cc
frame_parse-ne-frame_too_large (b0 ∷ b1 ∷ rest) f h =
    ground (arith, word_size_bound (header_word b0 b1))

body-length : (f : Frame) → HasSize f.size f.payload → length (frame_body f) ≡ f.size
body-length f h = go f.size f.payload h
  where
    go :
        (n : ℕ) (o : Option (List ℕ))
        → HasSize n o
        → length (elim (given n o) as (λ _. List ℕ) [ none ↦ [] | some bytes ↦ bytes ]) ≡ n
    go zero none k = refl
    go zero (some bytes) k = absurd k
    go (suc n) none k = absurd k
    go (suc n) (some bytes) k = rw (take_all (suc n) bytes (omega arith)) k

body_copied :
    (f : Frame) (rest : List ℕ)
    → HasSize f.size f.payload
    → copied f.size (frame_body f ++ rest) ≡ f.payload
body_copied f rest h = go f.size f.payload h
  where
    go :
        (n : ℕ) (o : Option (List ℕ))
        → HasSize n o
        → copied n ((elim (given n o) as (λ _. List ℕ) [ none ↦ [] | some bytes ↦ bytes ]) ++ rest)
          ≡ o
    go zero none k = refl
    go zero (some bytes) k = absurd k
    go (suc n) none k = absurd k
    go (suc n) (some bytes) k =
        rw (take_all (suc n) bytes (omega arith), ← k) (ap some (take-append bytes rest))

frame_serialize_lem :
    (f : Frame) (buffer : List ℕ) (written : ℕ)
    → HasSize f.size f.payload
    → header_size + f.size ≤ length buffer
    → frame_serialize f buffer written ≡ (
      ok,
      f.header0 ∷ f.header1 ∷ (frame_body f ++ drop (2 + f.size) buffer),
      header_size + f.size,
    )
unfolding frame_serialize
frame_serialize_lem f buffer written h room =
    let fits : ltb (length buffer) (header_size + f.size) ≡ false = ground arith in
    let count : suc (suc (length (frame_body f))) ≡ 2 + f.size = omega (arith, body-length f h) in
    rw fits (
      ap {B = Status × List ℕ × ℕ}
        (λ k. (ok, f.header0 ∷ f.header1 ∷ (frame_body f ++ drop k buffer), header_size + f.size))
        count)

-- A frame at the front of a buffer is the frame that is parsed.
parse_front :
    (f g : Frame) (rest : List ℕ)
    → IsWellFormed f
    → frame_parse (f.header0 ∷ f.header1 ∷ (frame_body f ++ rest)) g ≡ (ok, f)
parse_front f g rest wf =
    let bytes = frame_body f ++ rest in
    let word = header_word f.header0 f.header1 in
    let enough : word_size word ≤ length bytes =
      omega (arith, wf.sized, body-length f wf.carried, length-append {0} (frame_body f) rest) in
    let data_kept : copied (word_size word) bytes ≡ f.payload =
      rw wf.sized (body_copied f rest wf.carried) in
    frame_parse_whole f.header0 f.header1 bytes g enough ∙ λ i. (
      ok,
      record {
        header0 = f.header0;
        header1 = f.header1;
        payload = data_kept i;
        size = wf.sized i;
        is_command = wf.flagged i;
      },
    )

-- A well-formed frame that is serialized into a buffer with room for it is read back whole, whatever
-- follows it in the buffer and whatever frame the parser is given.
pub frame_parse-frame_serialize :
    (f g : Frame) (buffer : List ℕ) (written : ℕ)
    → IsWellFormed f
    → header_size + f.size ≤ length buffer
    → ((frame_serialize f buffer written).0 ≡ ok)
      × ((frame_serialize f buffer written).2 ≡ header_size + f.size)
      × (frame_parse (frame_serialize f buffer written).1 g ≡ (ok, f))
frame_parse-frame_serialize f g buffer written wf room =
    let e = frame_serialize_lem f buffer written wf.carried room in
    (
      ap (λ r. r.0) e,
      ap (λ r. r.2) e,
      ap (λ r. frame_parse r.1 g) e ∙ parse_front f g (drop (2 + f.size) buffer) wf,
    )
