-- ===== src/Binkp/Resume/Tests.antt =====
-- Runs of the theorems on the NR option.
use lib_ftn.Common.{◌<◌, ◌⊎◌, true, some, length, codes, ◌≡◌, refl, arith}
use lib_ftn.Common.Text.{decimal, decimal_loop}
use lib_ftn.Binkp.Status.{ok}
use lib_ftn.Binkp.Resume.{NrContext, nr_mode_supported, is_nr_offered, nr_init, nr_set_mode}
use lib_ftn.Binkp.Resume.{
  nr_create_option, nr_negotiate, get_resume_offset, resume_at, check_partial_file,
}
use lib_ftn.Binkp.Resume.{nda_text, create_nda_response, parse_nda_response}
use lib_ftn.Binkp.Resume.Offset.{IsPart, get_resume_offset-IsPart}
use lib_ftn.Binkp.Resume.Negotiation.{nr_negotiate-nr_create_option}
use lib_ftn.Binkp.Resume.Response.{parse_nda_response-create_nda_response}

abbrev supporting : NrContext
unfolding nr_set_mode nr_init is_nr_offered
supporting = nr_set_mode nr_init nr_mode_supported

-- A context in which resuming is negotiated, for a file of 100 bytes.
abbrev resuming : NrContext
unfolding nr_init
resuming = record nr_init { nr_negotiated = true; expected_size = 100 }

supporting_option : nr_create_option supporting ≡ some (codes "NR")
unfolding nr_create_option nr_set_mode supporting
supporting_option = refl

nr_negotiate-nr_create_option_example :
    ((nr_negotiate supporting (codes "NR")).0 ≡ ok)
    × ((nr_negotiate supporting (codes "NR")).1.nr_negotiated
        ≡ is_nr_offered supporting.nr_local_mode)
nr_negotiate-nr_create_option_example =
    nr_negotiate-nr_create_option supporting supporting (codes "NR") supporting_option

resumes_at_40 : get_resume_offset resuming (some 40) ≡ 40
unfolding get_resume_offset resume_at check_partial_file resuming
resumes_at_40 = refl

get_resume_offset-IsPart_example :
    (get_resume_offset resuming (some 40) ≡ 0)
    ⊎ ((resuming.nr_negotiated ≡ true)
        × IsPart (get_resume_offset resuming (some 40)) resuming.expected_size (some 40))
get_resume_offset-IsPart_example = get_resume_offset-IsPart resuming (some 40)

short_response :
    length (nda_text (codes "a.pkt") 100 7 (get_resume_offset resuming (some 40))) < 256
unfolding nda_text decimal decimal_loop get_resume_offset resume_at check_partial_file resuming
short_response = omega arith

parse_nda_response-create_nda_response_example :
    parse_nda_response (create_nda_response resuming (some 40) (codes "a.pkt") 100 7)
    ≡ (ok, get_resume_offset resuming (some 40))
parse_nda_response-create_nda_response_example =
    parse_nda_response-create_nda_response resuming (some 40) (codes "a.pkt") 100 7 (ground arith)
      (omega arith) short_response
