-- ===== src/Binkp/Frame/Header.antt =====
-- The header of a frame: what well-formed frames are, and the size and the command bit in two bytes.
use lib_ftn.Common.{ℕ, zero, suc, ◌+◌, ◌*◌, ◌/◌, ◌%◌, ◌^◌, ◌≤◌, ◌<◌, bit_and, arith, ◌≡◌}
use lib_ftn.Common.{refl, ◌∙◌, ◌⊎◌, inl, inr, Bool, true, false, not, Option, none, some, List}
use lib_ftn.Common.{length, ◌==◌, ltb, length-take, lt→ltb}
use lib_ftn.Common.Bits.{bit_and_mask, bit_and_bit, bit_or_disjoint, bit_or_comm}
use native.Mathlib.Decide.{dec_le}
use lib_ftn.Binkp.Status.{ok, frame_too_large}
use lib_ftn.Binkp.Frame.{Frame, max_frame_size, t_bit, header_word, command_flag, word_size, copied}
use lib_ftn.Binkp.Frame.{create_word, given, frame_create}

-- A field of data holds as many bytes as the size says, and is NULL for size 0.
abbrev pub HasSize : ℕ → Option (List ℕ) → Type 0
HasSize zero none = Unit
HasSize zero (some bytes) = ⊥
HasSize (suc n) none = ⊥
HasSize (suc n) (some bytes) = length bytes ≡ suc n

pub record IsWellFormed (f : Frame) : Type 0 where
  pub byte0 : f.header0 < 256
  pub byte1 : f.header1 < 256
  pub sized : word_size (header_word f.header0 f.header1) ≡ f.size
  pub flagged : command_flag (header_word f.header0 f.header1) ≡ f.is_command
  pub carried : HasSize f.size f.payload

pub header_word_lem : (b0 b1 : ℕ) → b0 < 256 → b1 < 256 → header_word b0 b1 ≡ b0 * 256 + b1
unfolding header_word
header_word_lem b0 b1 h0 h1 = omega (arith, bit_or_disjoint 8 b0 b1 h1)

pub word_size_lem : (w : ℕ) → word_size w ≡ w % 2 ^ 15
unfolding word_size
word_size_lem w = bit_and_mask 15 w

command_flag_lem : (w : ℕ) → command_flag w ≡ not (w / 2 ^ 15 % 2 == 0)
unfolding command_flag
command_flag_lem w = rw (bit_and_bit 15 w) (by_digit (w / 2 ^ 15 % 2))
  where
    by_digit : (d : ℕ) → not (d * 2 ^ 15 == 0) ≡ not (d == 0)
    by_digit d = ground arith

abbrev word_value : Bool → ℕ → ℕ
word_value true n = n + 2 ^ 15
word_value false n = n

create_word_lem : (c : Bool) (n : ℕ) → n ≤ max_frame_size → create_word c n ≡ word_value c n
unfolding create_word
create_word_lem true n h =
    let fits : n % 2 ^ 16 ≡ n = omega arith in
    rw fits (bit_or_comm n t_bit ∙ bit_or_disjoint 15 1 n (omega arith) ∙ omega arith)
create_word_lem false n h = omega arith

word_value_size : (c : Bool) (n : ℕ) → n ≤ max_frame_size → word_size (word_value c n) ≡ n
word_value_size true n h = word_size_lem (n + 2 ^ 15) ∙ omega arith
word_value_size false n h = word_size_lem n ∙ omega arith

word_value_flag : (c : Bool) (n : ℕ) → n ≤ max_frame_size → command_flag (word_value c n) ≡ c
word_value_flag true n h =
    let top : (n + 2 ^ 15) / 2 ^ 15 % 2 ≡ 1 = omega arith in command_flag_lem (n + 2 ^ 15) ∙ rw top
word_value_flag false n h =
    let top : n / 2 ^ 15 % 2 ≡ 0 = omega arith in command_flag_lem n ∙ rw top

word_value-lt : (c : Bool) (n : ℕ) → n ≤ max_frame_size → word_value c n < 2 ^ 16
word_value-lt true n h = omega arith
word_value-lt false n h = omega arith

-- The two header bytes that hold a word.
header_bytes :
    (w : ℕ)
    → w < 2 ^ 16
    → (bit_and (w / 2 ^ 8) 0xFF < 256)
      × (bit_and w 0xFF < 256)
      × (header_word (bit_and (w / 2 ^ 8) 0xFF) (bit_and w 0xFF) ≡ w)
header_bytes w h =
    let hi = bit_and_mask 8 (w / 2 ^ 8) in
    let lo = bit_and_mask 8 w in
    (
      rw hi (omega arith),
      rw lo (omega arith),
      rw (hi, lo)
          (header_word_lem (w / 2 ^ 8 % 2 ^ 8) (w % 2 ^ 8) (omega arith) (omega arith)
            ∙ omega arith),
    )

HasSize-copied : (n : ℕ) (bytes : List ℕ) → n ≤ length bytes → HasSize n (copied n bytes)
HasSize-copied zero bytes h = tt
HasSize-copied (suc n) bytes h = omega (arith, length-take {0} (suc n) bytes)

given-copied : (n : ℕ) (bytes : List ℕ) → given n (some bytes) ≡ copied n bytes
given-copied zero bytes = refl
given-copied (suc n) bytes = refl

abbrev made : Bool → List ℕ → ℕ → Frame
made c bytes n = record {
  header0 = bit_and (word_value c n / 2 ^ 8) 0xFF;
  header1 = bit_and (word_value c n) 0xFF;
  payload = copied n bytes;
  size = n;
  is_command = c;
}

frame_create-made :
    (f : Frame) (c : Bool) (bytes : List ℕ) (n : ℕ)
    → n ≤ max_frame_size
    → frame_create f c (some bytes) n ≡ (ok, made c bytes n)
unfolding frame_create
frame_create-made f c bytes n h =
    let fits : ltb max_frame_size n ≡ false = ground arith in
    rw (fits, create_word_lem c n h, given-copied n bytes)

made-IsWellFormed :
    (c : Bool) (bytes : List ℕ) (n : ℕ)
    → n ≤ max_frame_size
    → n ≤ length bytes
    → IsWellFormed (made c bytes n)
made-IsWellFormed c bytes n h hl =
    let (lt0, lt1, word) = header_bytes (word_value c n) (word_value-lt c n h) in
    record {
      byte0 = lt0;
      byte1 = lt1;
      sized = rw word (word_value_size c n h);
      flagged = rw word (word_value_flag c n h);
      carried = HasSize-copied n bytes hl;
    }

frame_create_refused :
    (f : Frame) (c : Bool) (bytes : List ℕ) (n : ℕ)
    → max_frame_size < n
    → frame_create f c (some bytes) n ≡ (frame_too_large, f)
unfolding frame_create
frame_create_refused f c bytes n h = rw (lt→ltb _ _ h)

-- For data of at most 32767 bytes, `ftn_binkp_frame_create` succeeds with a well-formed frame of
-- that size, kind and data; for a larger size it fails and leaves the frame alone.
pub frame_create_lem :
    (f : Frame) (c : Bool) (bytes : List ℕ) (n : ℕ)
    → n ≤ length bytes
    → ((n ≤ max_frame_size)
        × (g : Frame) × (frame_create f c (some bytes) n ≡ (ok, g))
        × IsWellFormed g
        × (g.size ≡ n)
        × (g.is_command ≡ c)
        × (g.payload ≡ copied n bytes))
      ⊎ ((max_frame_size < n) × (frame_create f c (some bytes) n ≡ (frame_too_large, f)))
frame_create_lem f c bytes n hl = elim (dec_le n max_frame_size) [
  | yes h ↦ inl (
    h,
    made c bytes n,
    frame_create-made f c bytes n h,
    made-IsWellFormed c bytes n h hl,
    refl,
    refl,
    refl,
  )
  | no h ↦ inr (omega arith, frame_create_refused f c bytes n (omega arith))
]
