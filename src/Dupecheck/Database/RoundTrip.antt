-- ===== src/Dupecheck/Database/RoundTrip.antt =====
-- A database saved and loaded again: `ftn_dupecheck_db_save` and `ftn_dupecheck_db_load` of
-- src/dupechk.c.
use lib_ftn.Common.{
  ℕ, zero, suc, ◌^◌, ◌<◌, Bool, true, false, Option, none, some, List, [], ◌∷◌, ◌++◌,
}
use lib_ftn.Common.{
  if◌then◌else◌, ltb, ◌==◌, str_eq, ◌≡◌, inl, inr, refl, sym, ◌∙◌, arith, All, length,
}
use lib_ftn.Common.{length-append}
use lib_ftn.Common.Text.{c_string, split_at_char, decimal, skip_space}
use lib_ftn.Common.Text.Decimal.{StartsDigit, decimal-StartsDigit, decimal-digits}
use lib_ftn.Common.Text.Words.{
  IsText, IsText-append, c_string-IsText, split_at_char-other, decimal-IsText,
}
use lib_ftn.Common.Text.Words.{decimal-IsSolid}
use lib_ftn.Common.Text.Long.{strtol_whole, digits_differ}
use lib_ftn.Trim.{trim_end}
use lib_ftn.Trim.Laws.{
  IsTrimmed, EndsSolid, EndsSolid-append, EndsSolid-cons, solid-IsTrimmed, trim_trimmed, trim-last,
}
use lib_ftn.Dupecheck.{Entry, Db, db_new, dupecheck_trim, add_entry, add_missing}
use lib_ftn.Dupecheck.Normal.{dupecheck_trim_lem}
use lib_ftn.Dupecheck.Refinement.{view, IsDistinct, found-view, str_eq_sym}
use lib_ftn.Dupecheck.Database.{
  newline, pipe, hash, entry_line, entry_lines, version_line, title_line, db_text,
}
use lib_ftn.Dupecheck.Database.{
  db_save, keep_line, cut_lines, file_lines, is_positive, load_parts, load_trimmed,
}
use lib_ftn.Dupecheck.Database.{load_line, load_lines, db_load}
use mathlib.Core.List.{append_assoc, append-nil}

abbrev pub IsLine : List ℕ → Type 0
IsLine s = All (λ c. (c == newline) ≡ false) s

-- An entry that can be kept on disk: a trimmed id without an end of line, a time after 1970, and a
-- line that fits the buffer.
pub record IsStorable (e : Entry) : Type 0 where
  pub trimmed : IsTrimmed e.msgid
  pub full : 0 < length e.msgid
  pub one_line : IsLine e.msgid
  pub text : IsText e.msgid
  pub late : 0 < e.timestamp
  pub stamp_fits : e.timestamp < 2 ^ 63
  pub line_fits : length (entry_line e) < 1023

keep_line-last :
    (line : List ℕ) (c : ℕ) (later : List (List ℕ))
    → keep_line (line ++ (c ∷ [])) later ≡ (line ++ (c ∷ [])) ∷ later
keep_line-last [] c later = refl
keep_line-last (x ∷ line) c later = refl

cut_lines-line :
    (room : ℕ) (line rest : List ℕ)
    → IsLine line
    → length line < room
    → cut_lines room (line ++ (newline ∷ rest)) ≡ (line ++ (newline ∷ []), file_lines rest)
unfolding cut_lines file_lines
cut_lines-line zero line rest h fits = absurd (omega arith)
cut_lines-line (suc room) [] rest h fits = refl
cut_lines-line (suc room) (c ∷ line) rest (p, h) fits =
    rw (p, cut_lines-line room line rest h (omega arith))

file_lines-line :
    (line rest : List ℕ)
    → IsLine line
    → length line < 1023
    → file_lines (line ++ (newline ∷ rest)) ≡ (line ++ (newline ∷ [])) ∷ file_lines rest
unfolding file_lines
file_lines-line line rest h fits =
    rw (cut_lines-line 1023 line rest h fits) (keep_line-last line newline (file_lines rest))

load_trimmed-StartsDigit :
    (db : Db) (s : List ℕ)
    → StartsDigit s
    → load_trimmed db s ≡ load_parts db (split_at_char pipe s)
unfolding load_trimmed
load_trimmed-StartsDigit db [] h = absurd h
load_trimmed-StartsDigit db (c ∷ s) h =
    let data_line : (c == hash) ≡ false = ground arith in rw data_line

trimmed_line : (s : List ℕ) → IsTrimmed s → 0 < length s → dupecheck_trim (s ++ (newline ∷ [])) ≡ s
trimmed_line [] h full = absurd (omega arith)
trimmed_line (x ∷ s) h full =
    dupecheck_trim_lem ((x ∷ s) ++ (newline ∷ [])) ∙ trim-last x s newline h refl

StartsDigit-IsTrimmed : (s : List ℕ) → StartsDigit s → EndsSolid s → IsTrimmed s
StartsDigit-IsTrimmed [] h k = absurd h
StartsDigit-IsTrimmed (c ∷ s) h k = (ground arith, k)

entry_line-IsTrimmed : (e : Entry) → IsStorable e → IsTrimmed (entry_line e)
unfolding entry_line
entry_line-IsTrimmed e h =
    StartsDigit-IsTrimmed (entry_line e) (decimal-StartsDigit e.timestamp (pipe ∷ e.msgid)) (
      EndsSolid-append (decimal e.timestamp) pipe e.msgid
        (EndsSolid-cons pipe e.msgid h.full h.trimmed.1))

load_line-entry :
    (db : Db) (e : Entry)
    → IsStorable e
    → load_line db (entry_line e ++ (newline ∷ [])) ≡ add_entry db e.msgid e.timestamp
unfolding load_line load_parts
load_line-entry db e h =
    let line = entry_line e in
    let whole : c_string (line ++ (newline ∷ [])) ≡ line ++ (newline ∷ []) =
      c_string-IsText (line ++ (newline ∷ [])) (
        IsText-append line (newline ∷ [])
          (unfold entry_line in
            IsText-append (decimal e.timestamp) (pipe ∷ e.msgid) (decimal-IsText e.timestamp)
              (omega arith, h.text))
          (omega arith, tt)) in
    let full : 0 < length line =
      unfold entry_line in omega (arith, length-append (decimal e.timestamp) (pipe ∷ e.msgid)) in
    let starts : StartsDigit line =
      unfold entry_line in decimal-StartsDigit e.timestamp (pipe ∷ e.msgid) in
    let parts : split_at_char pipe line ≡ some (decimal e.timestamp, e.msgid) =
      unfold entry_line in
      split_at_char-other pipe (decimal e.timestamp) e.msgid
        (digits_differ pipe (decimal e.timestamp) refl (decimal-digits e.timestamp)) in
    let stamp : dupecheck_trim (decimal e.timestamp) ≡ decimal e.timestamp =
      dupecheck_trim_lem (decimal e.timestamp)
      ∙ trim_trimmed (decimal e.timestamp)
          (solid-IsTrimmed (decimal e.timestamp) (decimal-IsSolid e.timestamp)) in
    let id : dupecheck_trim e.msgid ≡ e.msgid =
      dupecheck_trim_lem e.msgid ∙ trim_trimmed e.msgid h.trimmed in
    let positive : is_positive e.timestamp ≡ true =
      let late = h.late in let fits = h.stamp_fits in ground arith in
    let some_id : ltb 0 (length e.msgid) ≡ true = let a = h.full in ground arith in
    rw (
      whole,
      trimmed_line line (entry_line-IsTrimmed e h) full,
      load_trimmed-StartsDigit db line starts,
      parts,
      stamp,
      strtol_whole e.timestamp h.stamp_fits,
      id,
      positive,
      some_id,
    )

-- In a list without repeated ids, what stands in front of an entry does not have its id.
fresh_front :
    (front : List Entry) (e : Entry) (es : List Entry)
    → IsDistinct (front ++ (e ∷ es))
    → view front e.msgid ≡ none
unfolding view
fresh_front [] e es h = refl
fresh_front (x ∷ front) e es (fresh, h) =
    rw (str_eq_sym e.msgid x.msgid (apart front fresh)) (fresh_front front e es h)
  where
    missed :
        (b : Bool) (t : ℕ) (o : Option ℕ)
        → ◌≡◌ {A = Option ℕ} (if b then some t else o) none
        → (b ≡ false) × (o ≡ none)
    missed true t o q = ground arith
    missed false t o q = (refl, q)

    apart :
        (front : List Entry)
        → view (front ++ (e ∷ es)) x.msgid ≡ none
        → str_eq e.msgid x.msgid ≡ false
    apart [] q = (missed (str_eq e.msgid x.msgid) e.timestamp (view es x.msgid) q).0
    apart (y ∷ front) q =
        apart front
          (missed (str_eq y.msgid x.msgid) y.timestamp (view (front ++ (e ∷ es)) x.msgid) q).1

add_entry_fresh :
    (front : List Entry) (m : Bool) (e : Entry)
    → view front e.msgid ≡ none
    → add_entry (record { entries = front; modified = m }) e.msgid e.timestamp
      ≡ record { entries = front ++ (e ∷ []); modified = true }
unfolding add_entry add_missing
add_entry_fresh front m e h = elim (found-view front e.msgid) [
  | inl (missing, _) ↦ rw missing
  | inr (i, t, found, seen) ↦ absurd (clash (sym h ∙ seen))
]
  where
    clash : {t : ℕ} → ◌≡◌ {A = Option ℕ} none (some t) → ⊥
    clash q = ground arith

IsLine-append : (s t : List ℕ) → IsLine s → IsLine t → IsLine (s ++ t)
IsLine-append [] t h k = k
IsLine-append (c ∷ s) t (p, h) k = (p, IsLine-append s t h k)

entry_line-IsLine : (e : Entry) → IsStorable e → IsLine (entry_line e)
unfolding entry_line
entry_line-IsLine e h =
    IsLine-append (decimal e.timestamp) (pipe ∷ e.msgid)
      (digits_differ newline (decimal e.timestamp) refl (decimal-digits e.timestamp))
      (refl, h.one_line)

load_lines-line :
    (db : Db) (line : List ℕ) (lines : List (List ℕ))
    → load_lines db (line ∷ lines) ≡ load_lines (load_line db line) lines
unfolding load_lines
load_lines-line db line lines = refl

load_lines-entries :
    (front es : List Entry) (m : Bool)
    → IsDistinct (front ++ es)
    → All IsStorable es
    → (load_lines (record { entries = front; modified = m }) (file_lines (entry_lines es))).entries
      ≡ front ++ es
load_lines-entries front [] m d h =
    unfold entry_lines load_lines file_lines cut_lines in sym (append-nil front)
load_lines-entries front (e ∷ es) m d (p, h) =
    let line = entry_line e in
    let start : Db = record { entries = front; modified = m } in
    let cut : file_lines (entry_lines (e ∷ es))
        ≡ (line ++ (newline ∷ [])) ∷ file_lines (entry_lines es) =
      unfold entry_lines in
      file_lines-line line (entry_lines es) (entry_line-IsLine e p) p.line_fits in
    rw
      (
        cut,
        load_lines-line start (line ++ (newline ∷ [])) (file_lines (entry_lines es)),
        load_line-entry start e p,
        add_entry_fresh front m e (fresh_front front e es d),
        ← append_assoc front (e ∷ []) es,
      )
      (load_lines-entries (front ++ (e ∷ [])) es true (rw (append_assoc front (e ∷ []) es) d) h)

cut_titles :
    (rest : List ℕ)
    → file_lines (version_line ++ (newline ∷ (title_line ++ (newline ∷ rest))))
      ≡ (version_line ++ (newline ∷ [])) ∷ ((title_line ++ (newline ∷ [])) ∷ file_lines rest)
unfolding file_lines cut_lines
cut_titles rest = refl

version_line_lem : (db : Db) → load_line db (version_line ++ (newline ∷ [])) ≡ db
unfolding load_line load_trimmed dupecheck_trim c_string trim_end skip_space
version_line_lem db = refl

title_line_lem : (db : Db) → load_line db (title_line ++ (newline ∷ [])) ≡ db
unfolding load_line load_trimmed dupecheck_trim c_string trim_end skip_space
title_line_lem db = refl

-- Saving a changed database to a file that can be opened, and loading the file into an empty
-- database, gives the entries back in their order, when no id stands twice and every entry can be
-- kept on disk.
pub db_load-db_save :
    (db : Db)
    → db.modified ≡ true
    → IsDistinct db.entries
    → All IsStorable db.entries
    → (db_load db_new (db_save true db).1).entries ≡ db.entries
unfolding db_load db_save db_text
db_load-db_save db m d h =
    let later = file_lines (entry_lines db.entries) in
    rw
      (
        m,
        cut_titles (entry_lines db.entries),
        load_lines-line db_new (version_line ++ (newline ∷ []))
            ((title_line ++ (newline ∷ [])) ∷ later),
        version_line_lem db_new,
        load_lines-line db_new (title_line ++ (newline ∷ [])) later,
        title_line_lem db_new,
      )
      (load_lines-entries [] db.entries false d h)
