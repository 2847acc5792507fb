-- ===== src/Router/Rules/Sorted.antt =====
-- The order of the rules that `ftn_router_add_rule` and `ftn_router_remove_rule` of src/router.c
-- keep.
use lib_ftn.Common.{ℕ, ◌<◌, ◌≤◌, Bool, true, false, ◌&&◌, Option, none, some, List, [], ◌∷◌}
use lib_ftn.Common.{
  if◌then◌else◌, ltb, str_eq, ◌≡◌, ◌⊎◌, inl, inr, refl, ap, arith, All, Bool-cases,
}
use lib_ftn.Router.Rules.{Rule, rank, insert_from_end, insert_rule, delete_rule, keep_first}

-- No rule stands before one of a smaller number.
abbrev pub IsSorted : List Rule → Type 0
IsSorted [] = Unit
IsSorted (x ∷ xs) = All (λ y. rank x ≤ rank y) xs × IsSorted xs

insert_from_end-front :
    (x : Rule) (xs : List Rule) (r : Rule)
    → IsSorted (x ∷ xs)
    → rank r < rank x
    → insert_from_end (x ∷ xs) r ≡ (true, r ∷ (x ∷ xs))
unfolding insert_from_end
insert_from_end-front x [] r h less =
    let test : ltb (rank r) (rank x) ≡ true = ground arith in rw test refl
insert_from_end-front x (y ∷ ys) r ((p, _), h) less =
    let test : ltb (rank r) (rank x) ≡ true = ground arith in
    rw (insert_from_end-front y ys r h (omega arith), test) refl

pub insert_rule-front :
    (x : Rule) (xs : List Rule) (r : Rule)
    → IsSorted (x ∷ xs)
    → rank r < rank x
    → insert_rule (x ∷ xs) r ≡ r ∷ (x ∷ xs)
unfolding insert_rule
insert_rule-front x xs r h less = ap (λ p. p.1) (insert_from_end-front x xs r h less)

stays :
    (b t : Bool) (moved other : Bool × List Rule)
    → t ≡ false
    → (if b && t then moved else other) ≡ other
stays false t moved other h = refl
stays true t moved other h = rw h refl

pub insert_rule-later :
    (x : Rule) (xs : List Rule) (r : Rule)
    → rank x ≤ rank r
    → insert_rule (x ∷ xs) r ≡ x ∷ insert_rule xs r
unfolding insert_rule insert_from_end
insert_rule-later x xs r h =
    let after = insert_from_end xs r in
    ap (λ p. p.1)
      (stays after.0 (ltb (rank r) (rank x)) (true, r ∷ (x ∷ xs)) (false, x ∷ after.1)
        (ground arith))

pub by_rank : (x r : Rule) → (rank r < rank x) ⊎ (rank x ≤ rank r)
by_rank x r = omega arith

All-insert_rule :
    (xs : List Rule) (n : ℕ) (r : Rule)
    → All (λ y. n ≤ rank y) xs
    → n ≤ rank r
    → IsSorted xs
    → All (λ y. n ≤ rank y) (insert_rule xs r)
All-insert_rule [] n r h k sorted = unfold insert_rule insert_from_end in (k, tt)
All-insert_rule (x ∷ xs) n r (p, h) k sorted = elim (by_rank x r) [
  | inl less ↦ rw (insert_rule-front x xs r sorted less) (k, (p, h))
  | inr more ↦ rw (insert_rule-later x xs r more) (p, All-insert_rule xs n r h k sorted.1)
]

All-below : (xs : List Rule) (n k : ℕ) → n ≤ k → All (λ y. k ≤ rank y) xs → All (λ y. n ≤ rank y) xs
All-below [] n k h all = tt
All-below (x ∷ xs) n k h (p, all) = (omega arith, All-below xs n k h all)

pub insert_rule-IsSorted : (xs : List Rule) (r : Rule) → IsSorted xs → IsSorted (insert_rule xs r)
insert_rule-IsSorted [] r h = unfold insert_rule insert_from_end in (tt, tt)
insert_rule-IsSorted (x ∷ xs) r h = elim (by_rank x r) [
  | inl less ↦
      rw (insert_rule-front x xs r h less)
        ((omega arith, All-below xs (rank r) (rank x) (omega arith) h.0), h)
  | inr more ↦
      rw (insert_rule-later x xs r more)
        (All-insert_rule xs (rank x) r h.0 more h.1, insert_rule-IsSorted xs r h.1)
]

-- What is left after a removal, if a rule was removed.
abbrev pub IsSortedIf : Option (List Rule) → Type 0
IsSortedIf none = Unit
IsSortedIf (some xs) = IsSorted xs

abbrev AllIf : ℕ → Option (List Rule) → Type 0
AllIf n none = Unit
AllIf n (some xs) = All (λ y. n ≤ rank y) xs

keep_first-AllIf :
    (n : ℕ) (x : Rule) (o : Option (List Rule)) → n ≤ rank x → AllIf n o → AllIf n (keep_first x o)
unfolding keep_first
keep_first-AllIf n x none h k = tt
keep_first-AllIf n x (some xs) h k = (h, k)

delete_rule-AllIf :
    (xs : List Rule) (name : List ℕ) (n : ℕ)
    → All (λ y. n ≤ rank y) xs
    → AllIf n (delete_rule xs name)
unfolding delete_rule
delete_rule-AllIf [] name n h = tt
delete_rule-AllIf (x ∷ xs) name n (p, h) = elim (Bool-cases (str_eq x.name name)) [
  | inl hit ↦ rw hit h
  | inr miss ↦
      rw miss (keep_first-AllIf n x (delete_rule xs name) p (delete_rule-AllIf xs name n h))
]

keep_first-IsSortedIf :
    (x : Rule) (o : Option (List Rule))
    → AllIf (rank x) o
    → IsSortedIf o
    → IsSortedIf (keep_first x o)
unfolding keep_first
keep_first-IsSortedIf x none h k = tt
keep_first-IsSortedIf x (some xs) h k = (h, k)

pub delete_rule-IsSortedIf :
    (xs : List Rule) (name : List ℕ) → IsSorted xs → IsSortedIf (delete_rule xs name)
unfolding delete_rule
delete_rule-IsSortedIf [] name h = tt
delete_rule-IsSortedIf (x ∷ xs) name (p, h) = elim (Bool-cases (str_eq x.name name)) [
  | inl hit ↦ rw hit h
  | inr miss ↦ rw miss (
      keep_first-IsSortedIf x (delete_rule xs name) (delete_rule-AllIf xs name (rank x) p)
        (delete_rule-IsSortedIf xs name h))
]
