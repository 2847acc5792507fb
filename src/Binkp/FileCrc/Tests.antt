-- ===== src/Binkp/FileCrc/Tests.antt =====
-- Runs of the theorems on the CRC option.
use lib_ftn.Common.{ℕ, true, not, some, List, [], ◌∷◌, codes, ◌≡◌, ◌≢◌, refl, arith, ◌==◌}
use lib_ftn.Crc.Serial32.{concat, serial_crc32}
use lib_ftn.Binkp.Status.{ok, auth_failed}
use lib_ftn.Binkp.FileCrc.{
  CrcContext, mode_supported, mode_required, is_offered, crc_init, set_mode,
}
use lib_ftn.Binkp.FileCrc.{create_option, negotiate}
use lib_ftn.Binkp.FileCrc.Negotiation.{negotiate-create_option, negotiate-ne-auth_failed}
use lib_ftn.Binkp.FileCrc.Check.{verdict, count, finish_file-serial_crc32}

abbrev supporting : CrcContext
unfolding set_mode crc_init is_offered
supporting = set_mode crc_init mode_supported

abbrev requiring : CrcContext
unfolding set_mode crc_init is_offered
requiring = set_mode crc_init mode_required

abbrev checking : CrcContext
unfolding crc_init
checking = record crc_init { crc_negotiated = true }

abbrev chunks : List (List ℕ)
chunks = codes "1234" ∷ codes "56789" ∷ []

supporting_option : create_option supporting ≡ some (codes "CRC")
unfolding create_option set_mode supporting
supporting_option = refl

negotiate-create_option_example :
    ((negotiate requiring (codes "CRC")).0 ≡ ok)
    × ((negotiate requiring (codes "CRC")).1.crc_negotiated ≡ is_offered requiring.local_mode)
negotiate-create_option_example =
    negotiate-create_option supporting requiring (codes "CRC") supporting_option

negotiate-ne-auth_failed_example : (negotiate requiring (codes "NR")).0 ≢ auth_failed
negotiate-ne-auth_failed_example = negotiate-ne-auth_failed requiring (codes "NR")

finish_file-serial_crc32_example :
    let valid = serial_crc32 (concat chunks) == 0xCBF43926 in
    let (found, after) = verdict checking (codes "a.txt") 0xCBF43926 chunks in
    (found ≡ valid)
    × (after.files_verified ≡ count valid checking.files_verified)
    × (after.files_failed ≡ count (not valid) checking.files_failed)
unfolding checking
finish_file-serial_crc32_example =
    finish_file-serial_crc32 checking (codes "a.txt") 0xCBF43926 chunks refl (ground arith)
