-- ===== src/Packet/Words.antt =====
-- The numbers, texts and blocks that src/packet.c reads are those it writes.
use lib_ftn.Common.{ℕ, zero, suc, ◌*◌, ◌/◌, ◌%◌, ◌^◌, ◌<◌, false, Option, some, List, [], ◌∷◌, ◌++◌}
use lib_ftn.Common.{ltb, ◌==◌, length, bit_and, bit_or, ◌≡◌, refl, ap, ◌∙◌, arith, All, take_all}
use lib_ftn.Common.{length-append, take-append, drop-append}
use lib_ftn.Common.Bits.{bit_and_mask, bit_or_disjoint, bit_or_comm}
use lib_ftn.Common.Text.Words.{IsText}
use lib_ftn.Packet.{
  read_uint16, write_uint16, read_packed_string, write_packed_string, text_or_empty, read_bytes,
  read_words, words_bytes,
}
use mathlib.Core.List.{append_assoc}

abbrev pub IsWord : ℕ → Type 0
IsWord w = w < 2 ^ 16

two_bytes : (w : ℕ) → IsWord w → bit_or (bit_and w 0xFF) (bit_and (w / 2 ^ 8) 0xFF * 2 ^ 8) ≡ w
two_bytes w h =
    let lo = bit_and_mask 8 w in
    let hi = bit_and_mask 8 (w / 2 ^ 8) in
    rw (lo, hi, bit_or_comm (w % 2 ^ 8) (w / 2 ^ 8 % 2 ^ 8 * 2 ^ 8))
      (bit_or_disjoint 8 (w / 2 ^ 8 % 2 ^ 8) (w % 2 ^ 8) (omega arith) ∙ omega arith)

pub read_uint16-write_uint16 :
    (w : ℕ) (s : List ℕ) → IsWord w → read_uint16 (write_uint16 w ++ s) ≡ (w, s)
unfolding read_uint16 write_uint16
read_uint16-write_uint16 w s h = ap {B = ℕ × List ℕ} (λ x. (x, s)) (two_bytes w h)

pub read_words-words_bytes :
    (ws s : List ℕ) → All IsWord ws → read_words (length ws) (words_bytes ws ++ s) ≡ (ws, s)
unfolding read_words words_bytes read_uint16 write_uint16
read_words-words_bytes [] s h = refl
read_words-words_bytes (w ∷ ws) s (p, h) = rw (two_bytes w p, read_words-words_bytes ws s h) refl

pub read_bytes-append :
    (n : ℕ) (xs s : List ℕ) → length xs ≡ n → read_bytes n (xs ++ s) ≡ some (xs, s)
unfolding read_bytes
read_bytes-append n xs s h =
    let enough : ltb (length (xs ++ s)) (length xs) ≡ false = ground (arith, length-append xs s) in
    rw (← h, enough, take-append xs s, drop-append xs s) refl

packed :
    (room : ℕ) (t s : List ℕ)
    → IsText t
    → length t < room
    → read_packed_string room (t ++ (0 ∷ s)) ≡ (t, s)
unfolding read_packed_string
packed zero t s h k = absurd (omega arith)
packed (suc room) [] s h k = refl
packed (suc room) (c ∷ t) s (p, h) k =
    let solid : (c == 0) ≡ false = ground arith in rw (solid, packed room t s h (omega arith)) refl

-- A text that leaves room for the 0 behind it.
abbrev pub IsShort : ℕ → List ℕ → Type 0
IsShort room t = IsText t × (length t < room)

pub read_packed_string-write_packed_string :
    (room : ℕ) (text : Option (List ℕ)) (s : List ℕ)
    → IsShort room (text_or_empty text)
    → read_packed_string room (write_packed_string text room ++ s) ≡ (text_or_empty text, s)
unfolding write_packed_string
read_packed_string-write_packed_string room text s (h, k) =
    let t = text_or_empty text in
    rw (take_all room t (omega arith), append_assoc t (0 ∷ []) s) (packed room t s h k)
