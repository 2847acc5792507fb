-- ===== src/Dupecheck.antt =====
-- Duplicate detection: src/dupechk.c. A message is known by the normal form of its MSGID; the
-- database is a list of these with the time when each was seen first, in seconds after 1970. Pointers
-- that the code tests for NULL first are never NULL here, and `malloc` succeeds.
pub mod Normal
pub mod Database
pub mod Refinement
pub mod Context
mod Tests
use lib_ftn.Common.{
  ℕ, zero, suc, ◌+◌, ◌^◌, Bool, true, false, not, ◌&&◌, ◌||◌, Option, none, some, List, [], ◌∷◌,
}
use lib_ftn.Common.{◌++◌, length, take, drop, ◌==◌, ltb, leb, if◌then◌else◌, str_eq, codes, map}
use lib_ftn.Common.Text.{is_space, skip_space, c_string, split_at_char, decimal}
use lib_ftn.Common.Text.Long.{strtol}
use lib_ftn.Trim.{trim_end}
use lib_ftn.Message.{Message}
use lib_ftn.Error.{FtnError, ok, file}

-- `tolower` in the C locale.
abbrev pub to_lower : ℕ → ℕ
to_lower c = if leb 65 c && leb c 90 then c + 32 else c

-- `ftn_dupecheck_trim`
unfoldable pub dupecheck_trim : List ℕ → List ℕ
dupecheck_trim s = trim_end (skip_space s)

-- `strncasecmp(line, prefix, strlen(prefix)) == 0`
abbrev pub starts_nocase : List ℕ → List ℕ → Bool
starts_nocase prefix line = str_eq (map to_lower (take (length prefix) line)) (map to_lower prefix)

-- A value that is empty sends the search on.
abbrev pub value_or : List ℕ → Option (List ℕ) → Option (List ℕ)
value_or [] later = later
value_or (c ∷ s) later = some (c ∷ s)

-- `ftn_dupecheck_extract_msgid` over the control lines of a message.
unfoldable pub extract_msgid : List (List ℕ) → Option (List ℕ)
unfolding dupecheck_trim
extract_msgid [] = none
extract_msgid (line ∷ lines) =
    let later = extract_msgid lines in
    if starts_nocase (codes "MSGID:") line
    then value_or (dupecheck_trim (skip_space (drop 6 line))) later
    else later

-- The loop of `ftn_dupecheck_normalize_msgid`; the flag tells that it is inside white space.
unfoldable pub squeeze : Bool → List ℕ → List ℕ
squeeze inside [] = []
squeeze inside (c ∷ s) =
    let blank = squeeze true s in
    let solid = squeeze false s in
    if is_space c then if inside then blank else 32 ∷ blank else to_lower c ∷ solid

unfoldable pub normalize_msgid : List ℕ → List ℕ
unfolding squeeze dupecheck_trim
normalize_msgid s = dupecheck_trim (squeeze false s)

unfoldable pub is_valid_msgid : List ℕ → Bool
is_valid_msgid [] = false
is_valid_msgid (c ∷ s) = not (is_space c) || is_valid_msgid s

pub record Entry : Type 0 where
  pub msgid : List ℕ
  pub timestamp : ℕ

pub record Db : Type 0 where
  pub entries : List Entry
  pub modified : Bool

abbrev pub db_new : Db
db_new = record { entries = []; modified = false }

next_index : Option ℕ → Option ℕ
next_index none = none
next_index (some i) = some (suc i)

-- `ftn_dupecheck_db_find_entry`: the index, `none` for -1.
unfoldable pub find_entry : List Entry → List ℕ → Option ℕ
unfolding next_index
find_entry [] msgid = none
find_entry (e ∷ es) msgid =
    let later = next_index (find_entry es msgid) in if str_eq e.msgid msgid then some 0 else later

add_missing : Db → Entry → Option ℕ → Db
add_missing db e (some i) = db
add_missing db e none = record { entries = db.entries ++ (e ∷ []); modified = true }

-- `ftn_dupecheck_db_add_entry`
unfoldable pub add_entry : Db → List ℕ → ℕ → Db
unfolding add_missing
add_entry db msgid timestamp =
    add_missing db (record { msgid = msgid; timestamp = timestamp }) (find_entry db.entries msgid)

-- The loop of `ftn_dupecheck_db_cleanup_old`: the entries that stay, and whether one went.
unfoldable pub remove_old : ℕ → List Entry → List Entry × Bool
remove_old cutoff [] = ([], false)
remove_old cutoff (e ∷ es) =
    let later = remove_old cutoff es in
    if ltb e.timestamp cutoff then (later.0, true) else (e ∷ later.0, later.1)

-- `ftn_dupecheck_db_cleanup_old`
unfoldable pub cleanup_old : Db → ℕ → Db
unfolding remove_old
cleanup_old db cutoff =
    let kept = remove_old cutoff db.entries in
    record { entries = kept.0; modified = db.modified || kept.1 }

-- What stands for a message in the database, if anything does.
unfoldable pub known_as : Option (List ℕ) → Option (List ℕ)
known_as none = none
known_as (some raw) = let id = normalize_msgid raw in if is_valid_msgid id then some id else none

unfoldable pub message_id : Message → Option (List ℕ)
unfolding known_as
message_id m = known_as (extract_msgid m.control_lines)

is_found : Option ℕ → Bool
is_found none = false
is_found (some i) = true

is_known : Db → Option (List ℕ) → Bool
is_known db none = false
is_known db (some id) = is_found (find_entry db.entries id)

-- `ftn_dupecheck_is_duplicate`: what it stores in `is_dupe`; the code is always success.
unfoldable pub is_duplicate : Db → Message → Bool
unfolding is_known is_found
is_duplicate db m = is_known db (message_id m)

add_known : Db → ℕ → Option (List ℕ) → Db
add_known db now none = db
add_known db now (some id) = add_entry db id now

-- `ftn_dupecheck_add_message` at the time `now`.
unfoldable pub add_message : Db → ℕ → Message → Db
unfolding add_known
add_message db now m = add_known db now (message_id m)
