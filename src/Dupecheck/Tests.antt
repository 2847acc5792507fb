-- ===== src/Dupecheck/Tests.antt =====
-- Runs of the theorems on duplicate detection.
use lib_ftn.Common.{true, ◌||◌, [], ◌∷◌, codes, ◌≡◌}
use lib_ftn.Common.{refl, arith, str_eq}
use lib_ftn.Common.Text.{decimal}
use lib_ftn.Message.{Message, message_new, echomail}
use lib_ftn.Dupecheck.{
  Entry, Db, db_new, add_entry, cleanup_old, is_duplicate, add_message, message_id,
}
use lib_ftn.Dupecheck.Refinement.{
  view, see, forget, IsDistinct, view-Db, same_id, is_duplicate-add_message,
}
use lib_ftn.Dupecheck.Database.{entry_line, db_save, db_load}
use lib_ftn.Dupecheck.Database.RoundTrip.{IsStorable, db_load-db_save}

abbrev old_entry : Entry
old_entry = record { msgid = codes "1:2/3 abcd"; timestamp = 1000 }

abbrev new_entry : Entry
new_entry = record { msgid = codes "1:2/3 abce"; timestamp = 2000 }

abbrev two_entries : Db
two_entries = record { entries = old_entry ∷ (new_entry ∷ []); modified = true }

two_entries-IsDistinct : IsDistinct two_entries.entries
unfolding view str_eq
two_entries-IsDistinct = (refl, (refl, tt))

view-Db_example :
    (view (add_entry two_entries (codes "x") 3000).entries (codes "x")
      ≡ see (view two_entries.entries) (codes "x") 3000 (codes "x"))
    × (view (cleanup_old two_entries 1500).entries (codes "x")
        ≡ forget (view two_entries.entries) 1500 (codes "x"))
    × IsDistinct (add_entry two_entries (codes "x") 3000).entries
    × IsDistinct (cleanup_old two_entries 1500).entries
view-Db_example = view-Db two_entries (codes "x") (codes "x") 3000 1500 two_entries-IsDistinct

abbrev pub seen_message : Message
unfolding message_new
seen_message = record (message_new echomail 1000) { control_lines = codes "MSGID: 1:2/3 ABCD" ∷ [] }

is_duplicate-add_message_example :
    is_duplicate (add_message db_new 1000 seen_message) seen_message
    ≡ is_duplicate db_new seen_message
      || same_id (message_id seen_message) (message_id seen_message)
is_duplicate-add_message_example = is_duplicate-add_message db_new 1000 seen_message seen_message

old_entry-IsStorable : IsStorable old_entry
unfolding entry_line decimal
old_entry-IsStorable = record {
  trimmed = (refl, refl);
  full = omega arith;
  one_line = (refl, (refl, (refl, (refl, (refl, (refl, (refl, (refl, (refl, (refl, tt))))))))));
  text = ground arith;
  late = omega arith;
  stamp_fits = omega arith;
  line_fits = omega arith;
}

new_entry-IsStorable : IsStorable new_entry
unfolding entry_line decimal
new_entry-IsStorable = record {
  trimmed = (refl, refl);
  full = omega arith;
  one_line = (refl, (refl, (refl, (refl, (refl, (refl, (refl, (refl, (refl, (refl, tt))))))))));
  text = ground arith;
  late = omega arith;
  stamp_fits = omega arith;
  line_fits = omega arith;
}

db_load-db_save_example :
    (db_load db_new (db_save true two_entries).1).entries ≡ two_entries.entries
db_load-db_save_example =
    db_load-db_save two_entries refl two_entries-IsDistinct
      (old_entry-IsStorable, (new_entry-IsStorable, tt))
