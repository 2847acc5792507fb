-- ===== src/Binkp/Resume.antt =====
-- Resuming a file, the NR option of binkp: src/binkp/nr.c. What `stat` says of a file is an argument:
-- the size of a regular file, or `none`. Numbers of type `uint32_t` wrap. Pointers that the code
-- tests for NULL first are never NULL here, and `malloc` succeeds.
pub mod Offset
pub mod Response
pub mod Negotiation
mod Tests
use lib_ftn.Common.{
  ℕ, zero, suc, ◌-◌, ◌%◌, ◌^◌, Bool, true, false, ◌&&◌, Option, none, some, List, [], ◌∷◌,
}
use lib_ftn.Common.{◌++◌, take, get_elem?, ◌==◌, ltb, if◌then◌else◌, str_eq, codes}
use lib_ftn.Common.Text.{strtoul, decimal, printed}
use lib_ftn.Binkp.Status.{Status, ok, invalid_command, protocol_error, auth_failed}

-- `ftn_nr_mode_t`
pub data NrMode : Type 0 where
  nr_mode_none nr_mode_supported nr_mode_required : NrMode

-- `ftn_nr_context_t`, without the two texts that no function sets.
pub record NrContext : Type 0 where
  pub nr_enabled : Bool
  pub nr_negotiated : Bool
  pub nr_local_mode : NrMode
  pub nr_remote_mode : NrMode
  pub nr_filename : Option (List ℕ)
  pub resume_offset : ℕ
  pub expected_size : ℕ

-- `ftn_nr_init`, and what `ftn_nr_free` leaves.
unfoldable pub nr_init : NrContext
nr_init = record {
  nr_enabled = false;
  nr_negotiated = false;
  nr_local_mode = nr_mode_none;
  nr_remote_mode = nr_mode_none;
  nr_filename = none;
  resume_offset = 0;
  expected_size = 0;
}

-- `mode != NR_MODE_NONE`
unfoldable pub is_nr_offered : NrMode → Bool
is_nr_offered nr_mode_none = false
is_nr_offered mode = true

unfoldable pub nr_set_mode : NrContext → NrMode → NrContext
unfolding is_nr_offered
nr_set_mode ctx mode = record ctx { nr_local_mode = mode; nr_enabled = is_nr_offered mode }

unfoldable pub nr_parse_option : List ℕ → Status × NrMode
nr_parse_option option =
    if str_eq option (codes "NR") then (ok, nr_mode_supported) else (invalid_command, nr_mode_none)

-- The rules of `ftn_nr_negotiate` for the local mode and the remote one.
unfoldable pub nr_agree : NrContext → NrMode → NrMode → Status × NrContext
nr_agree ctx nr_mode_required nr_mode_none = (auth_failed, ctx)
nr_agree ctx nr_mode_required remote = (ok, record ctx { nr_negotiated = true })
nr_agree ctx nr_mode_supported nr_mode_none = (ok, ctx)
nr_agree ctx nr_mode_supported remote = (ok, record ctx { nr_negotiated = true })
nr_agree ctx nr_mode_none nr_mode_required = (auth_failed, ctx)
nr_agree ctx nr_mode_none remote = (ok, record ctx { nr_negotiated = false })

nr_negotiate_parsed : NrContext → Status × NrMode → Status × NrContext
nr_negotiate_parsed ctx (Status.ok, remote) =
    nr_agree (record ctx { nr_remote_mode = remote }) ctx.nr_local_mode remote
nr_negotiate_parsed ctx (code, remote) = (code, ctx)

-- `ftn_nr_negotiate`
unfoldable pub nr_negotiate : NrContext → List ℕ → Status × NrContext
unfolding nr_negotiate_parsed nr_agree
nr_negotiate ctx option = nr_negotiate_parsed ctx (nr_parse_option option)

unfoldable pub nr_create_option : NrContext → Option (List ℕ)
nr_create_option ctx = elim ctx.nr_local_mode [ nr_mode_none ↦ none | _ ↦ some (codes "NR") ]

unfoldable pub set_file_info : NrContext → List ℕ → ℕ → ℕ → NrContext
set_file_info ctx filename size offset = record ctx {
  nr_filename = some filename;
  expected_size = size;
  resume_offset = offset;
}

-- `ftn_nr_check_partial_file`: the code and the size it stores.
unfoldable pub check_partial_file : Option ℕ → ℕ → Status × ℕ
check_partial_file none expected = (protocol_error, 0)
check_partial_file (some st_size) expected =
    let existing = st_size % 2 ^ 32 in
    if ltb expected existing then (invalid_command, existing) else (ok, existing)

-- An existing part of the file is gone on from, if something of it is there and something lacks.
resume_at : ℕ → Status × ℕ → ℕ
resume_at expected (Status.ok, existing) =
    if ltb 0 existing && ltb existing expected then existing else 0
resume_at expected (code, existing) = 0

-- `ftn_nr_get_resume_offset`
unfoldable pub get_resume_offset : NrContext → Option ℕ → ℕ
unfolding resume_at
get_resume_offset ctx file =
    if ctx.nr_negotiated
    then resume_at ctx.expected_size (check_partial_file file ctx.expected_size)
    else 0

abbrev pub space : ℕ
space = 32

-- The text of `"NDA %s %u %u %u"`.
unfoldable pub nda_text : List ℕ → ℕ → ℕ → ℕ → List ℕ
nda_text filename size timestamp offset =
    codes "NDA "
    ++ (filename
        ++ (space ∷ (decimal size ++ (space ∷ (decimal timestamp ++ (space ∷ decimal offset))))))

-- `ftn_nr_create_nda_response`, with its buffer of 256 bytes.
unfoldable pub create_nda_response : NrContext → Option ℕ → List ℕ → ℕ → ℕ → List ℕ
create_nda_response ctx file filename size timestamp =
    printed 256 (nda_text filename size timestamp (get_resume_offset ctx file))

-- A word in front of the others, if there is one.
abbrev pub keep_word : List ℕ → List (List ℕ) → List (List ℕ)
keep_word [] later = later
keep_word (c ∷ word) later = (c ∷ word) ∷ later

-- The word that the text begins with, empty before a space, and the later ones.
unfoldable pub lex : List ℕ → List ℕ × List (List ℕ)
lex [] = ([], [])
lex (c ∷ s) =
    let later = lex s in
    if c == space then ([], keep_word later.0 later.1) else (c ∷ later.0, later.1)

-- What the calls of `strtok_r` with a space give in turn.
unfoldable pub words : List ℕ → List (List ℕ)
unfolding lex
words s = keep_word (lex s).0 (lex s).1

nda_offset : Option (List ℕ) → ℕ
nda_offset none = 0
nda_offset (some token) = (strtoul token).0 % 2 ^ 32

-- `ftn_nr_parse_nda_response`: the code and the offset it stores.
unfoldable pub parse_nda_response : List ℕ → Status × ℕ
unfolding nda_offset words
parse_nda_response response =
    if str_eq (take 4 response) (codes "NDA ")
    then (ok, nda_offset (get_elem? (words response) 4))
    else (invalid_command, 0)
