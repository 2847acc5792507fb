-- ===== src/Dupecheck/Refinement.antt =====
-- The database of src/dupechk.c as a finite map from the ids of messages to the times when they were
-- seen first.
use lib_ftn.Common.{ℕ, suc, Bool, true, false, ◌||◌, Option, none, some, List, [], ◌∷◌, ◌++◌}
use lib_ftn.Common.{
  if◌then◌else◌, ltb, str_eq, str_eq→eq, str_eq_refl, ◌≡◌, ◌⊎◌, inl, inr, refl, sym, ap, ◌∙◌, arith,
}
use lib_ftn.Common.{Bool-cases}
use lib_ftn.Message.{Message}
use lib_ftn.Dupecheck.{
  Entry, Db, find_entry, next_index, add_entry, add_missing, remove_old, cleanup_old,
}
use lib_ftn.Dupecheck.{message_id, is_found, is_known, is_duplicate, add_known, add_message}

-- The abstract database: when an id was seen first.
abbrev pub Seen : Type 0
Seen = List ℕ → Option ℕ

abbrev unless_seen : Option ℕ → Option ℕ → Option ℕ → Option ℕ
unless_seen none before after = after
unless_seen (some t) before after = before

-- An id that was seen keeps its time.
abbrev pub see : Seen → List ℕ → ℕ → Seen
see f id t k = unless_seen (f id) (f k) (if str_eq id k then some t else f k)

abbrev recent : ℕ → Option ℕ → Option ℕ
recent cutoff none = none
recent cutoff (some t) = if ltb t cutoff then none else some t

-- What was seen before the cutoff is forgotten.
abbrev pub forget : Seen → ℕ → Seen
forget f cutoff k = recent cutoff (f k)

-- What the entries stand for.
unfoldable pub view : List Entry → Seen
view [] k = none
view (e ∷ es) k = let later = view es k in if str_eq e.msgid k then some e.timestamp else later

-- No id stands in two entries.
abbrev pub IsDistinct : List Entry → Type 0
IsDistinct [] = Unit
IsDistinct (e ∷ es) = (view es e.msgid ≡ none) × IsDistinct es

abbrev or_else : Option ℕ → Option ℕ → Option ℕ
or_else none later = later
or_else (some t) later = some t

view-append :
    (es : List Entry) (e : Entry) (k : List ℕ)
    → view (es ++ (e ∷ [])) k
      ≡ or_else (view es k) (if str_eq e.msgid k then some e.timestamp else none)
unfolding view
view-append [] e k = refl
view-append (x ∷ es) e k = elim (Bool-cases (str_eq x.msgid k)) [
  | inl hit ↦ rw hit
  | inr miss ↦ rw miss (view-append es e k)
]

-- The search finds an entry exactly for an id that was seen.
pub found-view :
    (es : List Entry) (id : List ℕ)
    → ((find_entry es id ≡ none) × (view es id ≡ none))
      ⊎ ((i : ℕ) × (t : ℕ) × (find_entry es id ≡ some i) × (view es id ≡ some t))
unfolding find_entry view next_index
found-view [] id = inl (refl, refl)
found-view (e ∷ es) id = elim (Bool-cases (str_eq e.msgid id)) [
  | inl hit ↦ rw hit (inr (0, e.timestamp, refl, refl))
  | inr miss ↦ rw miss (elim (found-view es id) [
    | inl (p, q) ↦ rw p (inl (refl, q))
    | inr (i, t, p, q) ↦ rw p (inr (suc i, t, refl, q))
  ])
]

seen_other :
    (f : Seen) (id k : List ℕ) (t : ℕ)
    → f id ≡ none
    → or_else (f k) (if str_eq id k then some t else none) ≡ (if str_eq id k then some t else f k)
seen_other f id k t h = elim (Bool-cases (str_eq id k)) [
  | inl same ↦ rw (same, sym (ap f (str_eq→eq id k same)) ∙ h)
  | inr other ↦ rw other (unit (f k))
]
  where
    unit : (o : Option ℕ) → or_else o none ≡ o
    unit none = refl
    unit (some t) = refl

pub view-add_entry :
    (db : Db) (id : List ℕ) (t : ℕ) (k : List ℕ)
    → view (add_entry db id t).entries k ≡ see (view db.entries) id t k
unfolding add_entry add_missing
view-add_entry db id t k = elim (found-view db.entries id) [
  | inl (missing, unseen) ↦
      rw (missing, unseen)
        (view-append db.entries (record { msgid = id; timestamp = t }) k
          ∙ seen_other (view db.entries) id k t unseen)
  | inr (i, old, found, seen) ↦ rw (found, seen)
]

view-remove_old :
    (cutoff : ℕ) (es : List Entry) (k : List ℕ)
    → IsDistinct es
    → view (remove_old cutoff es).0 k ≡ recent cutoff (view es k)
unfolding remove_old view
view-remove_old cutoff [] k h = refl
view-remove_old cutoff (e ∷ es) k (fresh, h) = elim (Bool-cases (ltb e.timestamp cutoff)) [
  | inl old ↦ elim (Bool-cases (str_eq e.msgid k)) [
    | inl hit ↦
        rw (old, hit, old)
          (view-remove_old cutoff es k h
            ∙ ap (recent cutoff) (sym (ap (view es) (str_eq→eq e.msgid k hit)) ∙ fresh))
    | inr miss ↦ rw (old, miss) (view-remove_old cutoff es k h)
  ]
  | inr young ↦ elim (Bool-cases (str_eq e.msgid k)) [
    | inl hit ↦ rw (young, hit, young)
    | inr miss ↦ rw (young, miss) (view-remove_old cutoff es k h)
  ]
]

remove_old-IsDistinct :
    (cutoff : ℕ) (es : List Entry) → IsDistinct es → IsDistinct (remove_old cutoff es).0
unfolding remove_old
remove_old-IsDistinct cutoff [] h = tt
remove_old-IsDistinct cutoff (e ∷ es) (fresh, h) = elim (Bool-cases (ltb e.timestamp cutoff)) [
  | inl old ↦ rw old (remove_old-IsDistinct cutoff es h)
  | inr young ↦ rw young (
    view-remove_old cutoff es e.msgid h ∙ ap (recent cutoff) fresh,
    remove_old-IsDistinct cutoff es h,
  )
]

pub str_eq_sym : (a b : List ℕ) → str_eq a b ≡ false → str_eq b a ≡ false
str_eq_sym a b h = by_test (str_eq b a) refl
  where
    by_test : (t : Bool) → str_eq b a ≡ t → t ≡ false
    by_test false e = refl
    by_test true e = let same : b ≡ a = str_eq→eq b a e in cc (h, same, str_eq_refl a)

IsDistinct-append :
    (es : List Entry) (e : Entry)
    → IsDistinct es
    → view es e.msgid ≡ none
    → IsDistinct (es ++ (e ∷ []))
IsDistinct-append [] e h k = (unfold view in refl, tt)
IsDistinct-append (x ∷ es) e (fresh, h) k =
    let (apart, unseen) =
      none_parts (str_eq x.msgid e.msgid) x.timestamp (view es e.msgid) (unfold view in k) in
    (
      view-append es e x.msgid ∙ rw (fresh, str_eq_sym x.msgid e.msgid apart),
      IsDistinct-append es e h unseen,
    )
  where
    none_parts :
        (b : Bool) (t : ℕ) (o : Option ℕ)
        → ◌≡◌ {A = Option ℕ} (if b then some t else o) none
        → (b ≡ false) × (o ≡ none)
    none_parts true t o q = ground arith
    none_parts false t o q = (refl, q)

add_entry-IsDistinct :
    (db : Db) (id : List ℕ) (t : ℕ) → IsDistinct db.entries → IsDistinct (add_entry db id t).entries
unfolding add_entry add_missing
add_entry-IsDistinct db id t h = elim (found-view db.entries id) [
  | inl (missing, unseen) ↦
      rw missing (IsDistinct-append db.entries (record { msgid = id; timestamp = t }) h unseen)
  | inr (i, old, found, seen) ↦ rw found h
]

-- A database without repeated ids is a finite map from the ids to the times when they were seen
-- first: adding an id keeps an older time, the cleanup forgets exactly what was seen before the
-- cutoff, and both leave a database without repeated ids.
pub view-Db :
    (db : Db) (id k : List ℕ) (t cutoff : ℕ)
    → IsDistinct db.entries
    → (view (add_entry db id t).entries k ≡ see (view db.entries) id t k)
      × (view (cleanup_old db cutoff).entries k ≡ forget (view db.entries) cutoff k)
      × IsDistinct (add_entry db id t).entries
      × IsDistinct (cleanup_old db cutoff).entries
unfolding cleanup_old
view-Db db id k t cutoff h = (
  view-add_entry db id t k,
  view-remove_old cutoff db.entries k h,
  add_entry-IsDistinct db id t h,
  remove_old-IsDistinct cutoff db.entries h,
)

-- Whether the two messages have an id, and the same.
abbrev pub same_id : Option (List ℕ) → Option (List ℕ) → Bool
same_id none other = false
same_id (some id) none = false
same_id (some id) (some other) = str_eq id other

is_seen : Option ℕ → Bool
is_seen none = false
is_seen (some t) = true

is_found-view : (es : List Entry) (id : List ℕ) → is_found (find_entry es id) ≡ is_seen (view es id)
unfolding is_found is_seen
is_found-view es id = elim (found-view es id) [
  | inl (p, q) ↦ rw (p, q)
  | inr (i, t, p, q) ↦ rw (p, q)
]

is_seen-see :
    (f : Seen) (id k : List ℕ) (t : ℕ) → is_seen (see f id t k) ≡ is_seen (f k) || str_eq id k
unfolding is_seen
is_seen-see f id k t = by_cases (f id) (f k) (str_eq id k) (λ same. ap f (str_eq→eq id k same))
  where
    apart : (x : ℕ) → some x ≡ none → ⊥
    apart x e = ground arith

    by_cases :
        (o p : Option ℕ) (b : Bool)
        → (b ≡ true → o ≡ p)
        → is_seen (unless_seen o p (if b then some t else p)) ≡ is_seen p || b
    by_cases none none true h = refl
    by_cases none none false h = refl
    by_cases none (some y) true h = refl
    by_cases none (some y) false h = refl
    by_cases (some x) (some y) b h = refl
    by_cases (some x) none false h = refl
    by_cases (some x) none true h = absurd (apart x (h refl))

or_false : (b : Bool) → b || false ≡ b
or_false true = refl
or_false false = refl

known-add :
    (db : Db) (now : ℕ) (a b : Option (List ℕ))
    → is_known (add_known db now a) b ≡ is_known db b || same_id a b
unfolding is_known add_known
known-add db now none none = refl
known-add db now none (some k) = sym (or_false (is_found (find_entry db.entries k)))
known-add db now (some id) none = refl
known-add db now (some id) (some k) =
    is_found-view (add_entry db id now).entries k
    ∙ ap is_seen (view-add_entry db id now k)
    ∙ is_seen-see (view db.entries) id k now
    ∙ ap (λ b. b || str_eq id k) (sym (is_found-view db.entries k))

-- After a message was added, exactly those messages are duplicates that were before, and those with
-- the same id.
pub is_duplicate-add_message :
    (db : Db) (now : ℕ) (m other : Message)
    → is_duplicate (add_message db now m) other
      ≡ is_duplicate db other || same_id (message_id m) (message_id other)
unfolding is_duplicate add_message
is_duplicate-add_message db now m other = known-add db now (message_id m) (message_id other)
