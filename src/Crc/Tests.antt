-- ===== src/Crc/Tests.antt =====
-- Runs of the checksums, and of their theorems, on the usual test text.
use lib_ftn.Common.{ℕ, ◌<◌, List, [], ◌∷◌, All, codes, ◌≡◌, arith, none, some}
use lib_ftn.Binkp.Status.{ok, protocol_error}
use lib_ftn.Crc.Crc16.{crc16}
use lib_ftn.Crc.Crc32.{crc32_calculate, crc32_file}
use lib_ftn.Crc.Serial16.{serial_crc16, crc16-serial_crc16}
use lib_ftn.Crc.Serial32.{
  serial_crc32, bytes_read, crc32_calculate-serial_crc32, crc32_file-serial_crc32,
}

-- In two chunks, as `fread` may give them before the end of the file.
abbrev reads : List (List ℕ)
reads = codes "1234" ∷ codes "56789" ∷ [] ∷ []

digits-bytes : All (λ b. b < 256) (codes "123456789")
digits-bytes = ground arith

crc16-serial_crc16_example : crc16 (codes "123456789") ≡ serial_crc16 0 (codes "123456789")
crc16-serial_crc16_example = crc16-serial_crc16 (codes "123456789") digits-bytes

crc32_calculate-serial_crc32_example :
    crc32_calculate (codes "123456789") ≡ serial_crc32 (codes "123456789")
crc32_calculate-serial_crc32_example = crc32_calculate-serial_crc32 (codes "123456789") digits-bytes

crc32_file-serial_crc32_example :
    (crc32_file none ≡ (protocol_error, none))
    × (crc32_file (some reads) ≡ (ok, some (serial_crc32 (bytes_read reads))))
crc32_file-serial_crc32_example = crc32_file-serial_crc32 reads digits-bytes
