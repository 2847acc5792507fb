-- ===== src/Router/Invariant.antt =====
-- The states of a router under `ftn_router_add_rule` and `ftn_router_remove_rule` of src/router.c.
use lib_ftn.Common.{ℕ, ◌≤◌, Bool, true, Option, none, some, List, [], ◌∷◌, ◌++◌}
use lib_ftn.Common.{◌≡◌, inl, inr, refl, arith, All, Bool-cases}
use lib_ftn.Config.{Config}
use lib_ftn.Dupecheck.{Db}
use lib_ftn.Router.{Router, router_new, add_rule, remove_rule, removed, first_match}
use lib_ftn.Router.Rules.{Rule, rank, delete_rule}
use lib_ftn.Router.Rules.Sorted.{IsSorted, IsSortedIf, insert_rule-IsSorted, delete_rule-IsSortedIf}
use mathlib.Core.Path.{subst}

-- What comes out of a new router by adding and removing rules in any order.
pub data Reachable (config : Config) (dupecheck : Option Db) : Router → Type 0 where
  fresh : Reachable config dupecheck (router_new config dupecheck)
  added :
      {router : Router}
      → Reachable config dupecheck router
      → (r : Rule) → Reachable config dupecheck (add_rule router r)
  deleted :
      {router : Router}
      → Reachable config dupecheck router
      → (name : List ℕ) → Reachable config dupecheck (remove_rule router name).1

removed-IsSorted :
    (router : Router) (o : Option (List Rule))
    → IsSorted router.rules
    → IsSortedIf o
    → IsSorted (removed router o).1.rules
unfolding removed
removed-IsSorted router none h k = h
removed-IsSorted router (some rules) h k = k

Reachable-IsSorted :
    {config : Config} {dupecheck : Option Db} {router : Router}
    → Reachable config dupecheck router
    → IsSorted router.rules
unfolding router_new add_rule remove_rule
Reachable-IsSorted fresh = tt
Reachable-IsSorted (added {router} h r) = insert_rule-IsSorted router.rules r (Reachable-IsSorted h)
Reachable-IsSorted (deleted {router} h name) =
    let sorted = Reachable-IsSorted h in
    removed-IsSorted router (delete_rule router.rules name) sorted
      (delete_rule-IsSortedIf router.rules name sorted)

abbrev pub IsUrgent : (Rule → Bool) → List Rule → Rule → Type 0
IsUrgent f xs s = (r : Rule) × (first_match f xs ≡ some r) × (f r ≡ true) × (rank r ≤ rank s)

split-rank :
    (before after : List Rule) (x s : Rule)
    → All (λ y. rank x ≤ rank y) (before ++ (s ∷ after))
    → rank x ≤ rank s
split-rank [] after x s (p, h) = p
split-rank (y ∷ before) after x s (p, h) = split-rank before after x s h

first_match-split :
    (f : Rule → Bool) (before after : List Rule) (s : Rule)
    → IsSorted (before ++ (s ∷ after))
    → f s ≡ true
    → IsUrgent f (before ++ (s ∷ after)) s
unfolding first_match
first_match-split f [] after s h hit = rw hit (s, refl, hit, omega arith)
first_match-split f (x ∷ before) after s (p, h) hit = elim (Bool-cases (f x)) [
  | inl here ↦ rw here (x, refl, here, split-rank before after x s p)
  | inr other ↦ rw other (first_match-split f before after s h hit)
]

-- In a router that comes out of a new one by adding and removing rules in any order, a rule that
-- matches is never passed over for one of a larger number: the search for a rule finds one, it
-- matches, and its number is at most that of the other.
pub Reachable-first_match :
    {config : Config} {dupecheck : Option Db} {router : Router} (f : Rule → Bool)
    → (before after : List Rule) (s : Rule) → Reachable config dupecheck router
    → router.rules ≡ before ++ (s ∷ after)
    → f s ≡ true
    → IsUrgent f router.rules s
Reachable-first_match f before after s h split hit =
    rw split (first_match-split f before after s (subst IsSorted split (Reachable-IsSorted h)) hit)
