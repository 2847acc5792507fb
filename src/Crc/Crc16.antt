-- ===== src/Crc/Crc16.antt =====
-- The CRC-16 of src/crc.c. `unsigned int` has 32 bits, and `<<` drops what leaves them.
use lib_ftn.Common.{ℕ, zero, suc, ◌*◌, ◌/◌, ◌%◌, ◌^◌, bit_and, bit_xor, List, [], ◌∷◌, get_or}
use lib_ftn.Common.{◌==◌, if◌then◌else◌}
use lib_ftn.Crc.Table.{tabulate}

-- One round of the inner loop of `init_crc_table`.
unfoldable pub crc16_round : ℕ → ℕ
crc16_round crc =
    if bit_and crc 0x8000 == 0 then crc * 2 % 2 ^ 32 else bit_xor (crc * 2 % 2 ^ 32) 0x1021

unfoldable pub crc16_rounds : ℕ → ℕ → ℕ
crc16_rounds zero crc = crc
crc16_rounds (suc left) crc = crc16_rounds left (crc16_round crc)

unfoldable pub crc16_entry : ℕ → ℕ
crc16_entry i = bit_and (crc16_rounds 8 (i * 2 ^ 8 % 2 ^ 32)) 0xFFFF

unfoldable pub crc16_table : List ℕ
unfolding tabulate crc16_entry crc16_rounds crc16_round
crc16_table = tabulate crc16_entry 256 0

-- One round of the loop of `ftn_crc16`.
unfoldable pub crc16_step : ℕ → ℕ → ℕ
crc16_step crc byte =
    bit_and
      (bit_xor (crc * 2 ^ 8 % 2 ^ 32)
        (get_or crc16_table (bit_and (bit_xor (crc / 2 ^ 8) byte) 0xFF) 0))
      0xFFFF

unfoldable pub crc16_loop : ℕ → List ℕ → ℕ
unfolding crc16_step
crc16_loop crc [] = crc
crc16_loop crc (byte ∷ rest) = crc16_loop (crc16_step crc byte) rest

unfoldable pub crc16 : List ℕ → ℕ
crc16 buffer = crc16_loop 0 buffer
