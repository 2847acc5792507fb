-- ===== src/Binkp/Resume/Negotiation.antt =====
-- The negotiation of the NR option: `ftn_nr_create_option` and `ftn_nr_negotiate` of
-- src/binkp/nr.c.
use lib_ftn.Common.{ℕ, Option, none, some, List, ◌≡◌, refl, arith, str_eq, codes}
use lib_ftn.Binkp.Status.{ok}
use lib_ftn.Binkp.Resume.{
  NrContext, NrMode, nr_mode_none, nr_mode_supported, nr_mode_required, is_nr_offered,
}
use lib_ftn.Binkp.Resume.{
  nr_create_option, nr_negotiate, nr_negotiate_parsed, nr_agree, nr_parse_option,
}

nr_offered :
    (mode : NrMode) (option : List ℕ)
    → ◌≡◌ {A = Option (List ℕ)}
        (elim mode [ nr_mode_none ↦ none | _ ↦ some (codes "NR") ])
        (some option)
    → option ≡ codes "NR"
nr_offered nr_mode_none option e = ground arith
nr_offered nr_mode_supported option e = ground arith
nr_offered nr_mode_required option e = ground arith

nr_agree-supported :
    (ctx : NrContext) (ours : NrMode)
    → ((nr_agree ctx ours nr_mode_supported).0 ≡ ok)
      × ((nr_agree ctx ours nr_mode_supported).1.nr_negotiated ≡ is_nr_offered ours)
unfolding nr_agree is_nr_offered
nr_agree-supported ctx nr_mode_none = (refl, refl)
nr_agree-supported ctx nr_mode_supported = (refl, refl)
nr_agree-supported ctx nr_mode_required = (refl, refl)

-- An option that the other side has created is accepted, whatever the local mode, and resuming is
-- then switched on exactly where the local side offers it too.
pub nr_negotiate-nr_create_option :
    (remote ctx : NrContext) (option : List ℕ)
    → nr_create_option remote ≡ some option
    → ((nr_negotiate ctx option).0 ≡ ok)
      × ((nr_negotiate ctx option).1.nr_negotiated ≡ is_nr_offered ctx.nr_local_mode)
unfolding nr_create_option nr_negotiate nr_negotiate_parsed nr_parse_option str_eq
nr_negotiate-nr_create_option remote ctx option e =
    rw (nr_offered remote.nr_local_mode option e)
      (nr_agree-supported (record ctx { nr_remote_mode = nr_mode_supported }) ctx.nr_local_mode)
