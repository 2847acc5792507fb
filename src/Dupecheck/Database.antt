-- ===== src/Dupecheck/Database.antt =====
-- The database of src/dupechk.c on disk: `ftn_dupecheck_db_save` and `ftn_dupecheck_db_load`.
pub mod RoundTrip
use lib_ftn.Common.{
  ℕ, zero, suc, ◌+◌, ◌^◌, Bool, true, false, ◌&&◌, ◌||◌, Option, none, some, List, [], ◌∷◌,
}
use lib_ftn.Common.{◌++◌, length, ◌==◌, ltb, if◌then◌else◌, codes}
use lib_ftn.Common.Text.{c_string, split_at_char, decimal}
use lib_ftn.Common.Text.Long.{strtol}
use lib_ftn.Error.{FtnError, ok, file}
use lib_ftn.Dupecheck.{Entry, Db, dupecheck_trim, add_entry}

abbrev pub newline : ℕ
newline = 10

abbrev pub hash : ℕ
hash = 35

abbrev pub pipe : ℕ
pipe = 124

-- `"%s|%s"` before the end of the line, with what `ftn_dupecheck_format_timestamp` prints.
unfoldable pub entry_line : Entry → List ℕ
entry_line e = decimal e.timestamp ++ (pipe ∷ e.msgid)

unfoldable pub entry_lines : List Entry → List ℕ
unfolding entry_line
entry_lines [] = []
entry_lines (e ∷ es) = entry_line e ++ (newline ∷ entry_lines es)

abbrev pub version_line : List ℕ
version_line = codes "# libFTN Duplicate Database v1.0"

abbrev pub title_line : List ℕ
title_line = codes "# timestamp|msgid"

unfoldable pub db_text : List Entry → List ℕ
unfolding entry_lines
db_text es = version_line ++ (newline ∷ (title_line ++ (newline ∷ entry_lines es)))

-- `ftn_dupecheck_db_save`: the code, what is written to the file, and the database. The first
-- argument tells whether the file can be opened.
unfoldable pub db_save : Bool → Db → FtnError × Option (List ℕ) × Db
unfolding db_text
db_save opens db =
    if db.modified
    then if opens
      then (ok, some (db_text db.entries), record db { modified = false })
      else (file, none, db)
    else (ok, none, db)

abbrev pub keep_line : List ℕ → List (List ℕ) → List (List ℕ)
keep_line [] later = later
keep_line (c ∷ line) later = (c ∷ line) ∷ later

-- A file cut as by calls of `fgets` with a buffer of 1024 bytes: what the first call still takes,
-- with room for so many characters, and what the later ones take.
unfoldable pub cut_lines : ℕ → List ℕ → List ℕ × List (List ℕ)
cut_lines room [] = ([], [])
cut_lines zero (c ∷ s) =
    let fresh = cut_lines 1023 s in
    let long = cut_lines 1022 s in
    if c == newline then ([], (c ∷ []) ∷ keep_line fresh.0 fresh.1) else ([], (c ∷ long.0) ∷ long.1)
cut_lines (suc room) (c ∷ s) =
    let fresh = cut_lines 1023 s in
    let more = cut_lines room s in
    if c == newline then (c ∷ [], keep_line fresh.0 fresh.1) else (c ∷ more.0, more.1)

unfoldable pub file_lines : List ℕ → List (List ℕ)
unfolding cut_lines
file_lines s = let cut = cut_lines 1023 s in keep_line cut.0 cut.1

-- `timestamp > 0` on a `long`.
abbrev pub is_positive : ℕ → Bool
is_positive word = ltb 0 word && ltb word (2 ^ 63)

load_parts : Db → Option (List ℕ × List ℕ) → Db
load_parts db none = db
load_parts db (some (stamp, id)) =
    let timestamp = strtol (dupecheck_trim stamp) in
    let msgid = dupecheck_trim id in
    if is_positive timestamp && ltb 0 (length msgid) then add_entry db msgid timestamp else db

load_trimmed : Db → List ℕ → Db
load_trimmed db [] = db
load_trimmed db (c ∷ s) = if c == hash then db else load_parts db (split_at_char pipe (c ∷ s))

-- One round of the loop of `ftn_dupecheck_db_load`.
unfoldable pub load_line : Db → List ℕ → Db
unfolding load_trimmed load_parts
load_line db line = load_trimmed db (dupecheck_trim (c_string line))

unfoldable pub load_lines : Db → List (List ℕ) → Db
unfolding load_line
load_lines db [] = db
load_lines db (line ∷ lines) = load_lines (load_line db line) lines

-- `ftn_dupecheck_db_load`; `none` is a file that cannot be opened.
unfoldable pub db_load : Db → Option (List ℕ) → Db
unfolding load_lines file_lines
db_load db none = db
db_load db (some text) = record (load_lines db (file_lines text)) { modified = false }
