-- ===== src/Crc/Crc32.antt =====
-- The CRC-32 of src/binkp/crc.c. A word is a number below 2 ^ 32 and a buffer a list of bytes.
-- The table is filled on first use and never changes, so it is a constant here.
use lib_ftn.Common.{ℕ, zero, suc, ◌/◌, bit_and, bit_xor, List, [], ◌∷◌, get_or, Option, none, some}
use lib_ftn.Common.{◌==◌, if◌then◌else◌}
use lib_ftn.Binkp.Status.{Status, ok, protocol_error}
use lib_ftn.Crc.Table.{tabulate}

abbrev pub crc32_polynomial : ℕ
crc32_polynomial = 0xEDB88320

-- One round of the inner loop of `ftn_crc32_init_table`.
unfoldable pub crc32_round : ℕ → ℕ
crc32_round crc = if bit_and crc 1 == 0 then crc / 2 else bit_xor (crc / 2) crc32_polynomial

-- The inner loop, with the rounds left.
unfoldable pub crc32_rounds : ℕ → ℕ → ℕ
crc32_rounds zero crc = crc
crc32_rounds (suc left) crc = crc32_rounds left (crc32_round crc)

unfoldable pub crc32_table : List ℕ
unfolding tabulate crc32_rounds crc32_round
crc32_table = tabulate (crc32_rounds 8) 256 0

-- One round of the loop of `ftn_crc32_update`.
unfoldable pub crc32_step : ℕ → ℕ → ℕ
crc32_step crc byte = bit_xor (get_or crc32_table (bit_and (bit_xor crc byte) 0xFF) 0) (crc / 256)

unfoldable pub crc32_update : ℕ → List ℕ → ℕ
unfolding crc32_step
crc32_update crc [] = crc
crc32_update crc (byte ∷ rest) = crc32_update (crc32_step crc byte) rest

unfoldable pub crc32_calculate : List ℕ → ℕ
crc32_calculate buffer = bit_xor (crc32_update 0xFFFFFFFF buffer) 0xFFFFFFFF

-- The loop of `ftn_crc32_file` over what its calls of `fread` give. A call that gives nothing ends it,
-- at the end of the file or on an error, which the code does not tell apart.
unfoldable pub crc32_reads : ℕ → List (List ℕ) → ℕ
crc32_reads crc [] = crc
crc32_reads crc ([] ∷ later) = crc
crc32_reads crc ((byte ∷ chunk) ∷ later) = crc32_reads (crc32_update crc (byte ∷ chunk)) later

-- `ftn_crc32_file` of a file name and a place that are not NULL: the code, and what it stores in
-- `crc`; `none` is a file that cannot be opened.
unfoldable pub crc32_file : Option (List (List ℕ)) → Status × Option ℕ
crc32_file none = (protocol_error, none)
crc32_file (some reads) = (ok, some (bit_xor (crc32_reads 0xFFFFFFFF reads) 0xFFFFFFFF))
