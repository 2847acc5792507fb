-- ===== src/Dupecheck/Context.antt =====
-- The context of a duplicate check: `ftn_dupecheck_t` of include/ftn/dupechk.h and its functions in
-- src/dupechk.c. A path that is not NULL has a database; a file is its text, `none` where it cannot be
-- opened.
use lib_ftn.Common.{ℕ, ◌*◌, Bool, ◌||◌, Option, List, [], ◌∷◌, ltb, ◌==◌, if◌then◌else◌, length}
use lib_ftn.Error.{FtnError}
use lib_ftn.Dupecheck.{Entry, Db, db_new, cleanup_old}
use lib_ftn.Dupecheck.Database.{db_load, db_save}

-- `ftn_dupecheck_t`
pub record Dupecheck : Type 0 where
  pub db_path : List ℕ
  pub db_handle : Db
  pub retention_days : ℕ
  pub max_entries : ℕ

-- `ftn_dupecheck_new`
unfoldable pub dupecheck_new : List ℕ → Dupecheck
dupecheck_new db_path = record {
  db_path = db_path;
  db_handle = db_new;
  retention_days = 30 * 24 * 60 * 60;
  max_entries = 10000;
}

-- `ftn_dupecheck_load`, with the files by their paths; the code is always success.
unfoldable pub dupecheck_load : (List ℕ → Option (List ℕ)) → Dupecheck → Dupecheck
dupecheck_load files d = record d { db_handle = db_load d.db_handle (files d.db_path) }

-- `ftn_dupecheck_save`: the code, what is written to `db_path`, and the context.
unfoldable pub dupecheck_save : (List ℕ → Bool) → Dupecheck → FtnError × Option (List ℕ) × Dupecheck
dupecheck_save opens d =
    let saved = db_save (opens d.db_path) d.db_handle in
    (saved.0, saved.1, record d { db_handle = saved.2 })

-- `ftn_dupecheck_cleanup_old`
unfoldable pub dupecheck_cleanup_old : Dupecheck → ℕ → Dupecheck
dupecheck_cleanup_old d cutoff = record d { db_handle = cleanup_old d.db_handle cutoff }

-- `ftn_dupecheck_stats_t`
pub record Stats : Type 0 where
  pub total_entries : ℕ
  pub entries_cleaned : ℕ
  pub last_cleanup : ℕ
  pub oldest_entry : ℕ
  pub lookups_performed : ℕ
  pub duplicates_found : ℕ

-- The loop of `ftn_dupecheck_get_stats`.
unfoldable pub oldest : List Entry → ℕ → ℕ
oldest [] t = t
oldest (e ∷ es) t = oldest es (if (t == 0) || ltb e.timestamp t then e.timestamp else t)

-- `ftn_dupecheck_get_stats` at the time `now`.
unfoldable pub get_stats : Dupecheck → ℕ → Stats
unfolding oldest
get_stats d now = record {
  total_entries = length d.db_handle.entries;
  entries_cleaned = 0;
  last_cleanup = now;
  oldest_entry = oldest d.db_handle.entries 0;
  lookups_performed = 0;
  duplicates_found = 0;
}

-- `ftn_dupecheck_set_retention`
unfoldable pub set_retention : Dupecheck → ℕ → Dupecheck
set_retention d days = record d { retention_days = days }

-- `ftn_dupecheck_set_max_entries`
unfoldable pub set_max_entries : Dupecheck → ℕ → Dupecheck
set_max_entries d n = record d { max_entries = n }
