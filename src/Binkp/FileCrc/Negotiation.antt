-- ===== src/Binkp/FileCrc/Negotiation.antt =====
-- The negotiation of the CRC option: `ftn_crc_create_option`, `ftn_crc_negotiate` and
-- `ftn_crc_set_mode` of src/binkp/crc.c.
use lib_ftn.Common.{
  ℕ, Bool, true, false, Option, none, some, List, ◌≡◌, ◌≢◌, refl, arith, str_eq, codes,
  if◌then◌else◌,
}
use lib_ftn.Binkp.Status.{ok, invalid_command, auth_failed}
use lib_ftn.Binkp.FileCrc.{
  CrcContext, CrcMode, mode_none, mode_supported, mode_required, algorithm_none,
}
use lib_ftn.Binkp.FileCrc.{
  algorithm_crc32, is_offered, create_option, negotiate, negotiate_parsed, agree,
}
use lib_ftn.Binkp.FileCrc.{parse_option}

offered :
    (mode : CrcMode) (option : List ℕ)
    → ◌≡◌ {A = Option (List ℕ)}
        (elim mode [ mode_none ↦ none | _ ↦ some (codes "CRC") ])
        (some option)
    → option ≡ codes "CRC"
offered mode_none option e = ground arith
offered mode_supported option e = ground arith
offered mode_required option e = ground arith

create_option-crc :
    (remote : CrcContext) (option : List ℕ)
    → create_option remote ≡ some option
    → option ≡ codes "CRC"
unfolding create_option
create_option-crc remote option e = offered remote.local_mode option e

agree-supported :
    (ctx : CrcContext) (ours : CrcMode)
    → ((agree ctx ours mode_supported algorithm_crc32).0 ≡ ok)
      × ((agree ctx ours mode_supported algorithm_crc32).1.crc_negotiated ≡ is_offered ours)
unfolding agree is_offered
agree-supported ctx mode_none = (refl, refl)
agree-supported ctx mode_supported = (refl, refl)
agree-supported ctx mode_required = (refl, refl)

-- An option that the other side has created is accepted, whatever the local mode, and the check
-- is then switched on exactly where the local side offers it too.
pub negotiate-create_option :
    (remote ctx : CrcContext) (option : List ℕ)
    → create_option remote ≡ some option
    → ((negotiate ctx option).0 ≡ ok)
      × ((negotiate ctx option).1.crc_negotiated ≡ is_offered ctx.local_mode)
unfolding negotiate negotiate_parsed parse_option str_eq
negotiate-create_option remote ctx option e =
    rw (create_option-crc remote option e)
      (agree-supported (record ctx { remote_mode = mode_supported }) ctx.local_mode)

negotiate_either :
    (ctx : CrcContext) (b : Bool)
    → (negotiate_parsed ctx (
        if b
        then (ok, mode_supported, algorithm_crc32)
        else (invalid_command, mode_none, algorithm_none))).0
      ≢ auth_failed
unfolding negotiate_parsed
negotiate_either ctx true e =
    let (accepted, _) =
      agree-supported (record ctx { remote_mode = mode_supported }) ctx.local_mode in
    ground (arith, accepted)
negotiate_either ctx false e = ground arith

-- No option makes the negotiation fail for want of a required mode: `ftn_crc_parse_option` gives
-- no mode with its success but the supported one.
pub negotiate-ne-auth_failed :
    (ctx : CrcContext) (option : List ℕ) → (negotiate ctx option).0 ≢ auth_failed
unfolding negotiate parse_option
negotiate-ne-auth_failed ctx option = negotiate_either ctx (str_eq option (codes "CRC"))
