-- ===== src/Router/Chosen.antt =====
-- Which rule `ftn_router_route_message` of src/router.c applies: the one of the smallest number
-- among those that match, and of these the one that was added first.
use lib_ftn.Common.{ℕ, ◌<◌, ◌≤◌, Bool, true, false, Option, none, some, List, [], ◌∷◌}
use lib_ftn.Common.{
  if◌then◌else◌, ltb, ◌≡◌, inl, inr, refl, sym, ap, ◌∙◌, arith, All, Bool-cases, codes,
}
use lib_ftn.Config.{Config}
use lib_ftn.Dupecheck.{Db}
use lib_ftn.Message.{Message}
use lib_ftn.Router.{Router, Decision, router_new, add_rule, analyze_message, is_match, first_match}
use lib_ftn.Router.{apply_rule, is_dupe, set_drop, route_message}
use lib_ftn.Router.Rules.{Rule, rank, insert_from_end, insert_rule}
use lib_ftn.Router.Rules.Sorted.{
  IsSorted, insert_rule-front, insert_rule-later, by_rank, insert_rule-IsSorted,
}

-- Of two rules, an earlier and a later one, the later goes first only with a smaller number.
abbrev pub better : Option Rule → Option Rule → Option Rule
better none later = later
better (some r) none = some r
better (some r) (some s) = if ltb (rank s) (rank r) then some s else some r

abbrev pub matched : (Rule → Bool) → Rule → Option Rule
matched f r = if f r then some r else none

-- The best rule of a list in the order in which the rules were added.
abbrev pub best : (Rule → Bool) → List Rule → Option Rule
best f [] = none
best f (r ∷ rs) = better (matched f r) (best f rs)

better-none : (o : Option Rule) → better o none ≡ o
better-none none = refl
better-none (some r) = refl

abbrev IsAbove : ℕ → Option Rule → Type 0
IsAbove n none = Unit
IsAbove n (some s) = n ≤ rank s

first_match-IsAbove :
    (f : Rule → Bool) (xs : List Rule) (n : ℕ)
    → All (λ y. n ≤ rank y) xs
    → IsAbove n (first_match f xs)
unfolding first_match
first_match-IsAbove f [] n h = tt
first_match-IsAbove f (x ∷ xs) n (p, h) = elim (Bool-cases (f x)) [
  | inl hit ↦ rw hit p
  | inr miss ↦ rw miss (first_match-IsAbove f xs n h)
]

better-smaller :
    (o : Option Rule) (r : Rule) (n : ℕ) → rank r < n → IsAbove n o → better o (some r) ≡ some r
better-smaller none r n h k = refl
better-smaller (some s) r n h k =
    let test : ltb (rank r) (rank s) ≡ true = ground arith in rw test refl

kept : (x r : Rule) (f : Rule → Bool) → rank x ≤ rank r → better (some x) (matched f r) ≡ some x
kept x r f h =
    let test : ltb (rank r) (rank x) ≡ false = ground arith in
    elim (Bool-cases (f r)) [ inl hit ↦ rw (hit, test) refl | inr miss ↦ rw miss refl ]

first_match-insert_rule :
    (f : Rule → Bool) (xs : List Rule) (r : Rule)
    → IsSorted xs
    → first_match f (insert_rule xs r) ≡ better (first_match f xs) (matched f r)
unfolding first_match
first_match-insert_rule f [] r h = unfold insert_rule insert_from_end in refl
first_match-insert_rule f (x ∷ xs) r h = elim (by_rank x r) [
  | inl less ↦ rw (insert_rule-front x xs r h less) (elim (Bool-cases (f r)) [
    | inl hit ↦ rw hit (
        sym (
          better-smaller (first_match f (x ∷ xs)) r (rank x) less
            (first_match-IsAbove f (x ∷ xs) (rank x) (omega arith, h.0))))
    | inr miss ↦ rw miss (sym (better-none (first_match f (x ∷ xs))))
  ])
  | inr more ↦ rw (insert_rule-later x xs r more) (elim (Bool-cases (f x)) [
    | inl hit ↦ rw hit (sym (kept x r f more))
    | inr miss ↦ rw miss (first_match-insert_rule f xs r h.1)
  ])
]

better_assoc : (a b c : Option Rule) → better (better a b) c ≡ better a (better b c)
better_assoc none b c = refl
better_assoc (some r) none c = refl
better_assoc (some r) (some s) none = better-none (better (some r) (some s))
better_assoc (some r) (some s) (some t) = elim (Bool-cases (ltb (rank s) (rank r))) [
  | inl first ↦ elim (Bool-cases (ltb (rank t) (rank s))) [
    | inl second ↦
        let third : ltb (rank t) (rank r) ≡ true = ground arith in rw (first, second, third) refl
    | inr second ↦ rw (first, second, first) refl
  ]
  | inr first ↦ elim (Bool-cases (ltb (rank t) (rank s))) [
    | inl second ↦ rw (first, second) refl
    | inr second ↦
        let third : ltb (rank t) (rank r) ≡ false = ground arith in
        rw (first, second, third, first) refl
  ]
]

-- A router after the rules of a list were added one by one.
abbrev pub add_rules : Router → List Rule → Router
add_rules router [] = router
add_rules router (r ∷ rs) = add_rules (add_rule router r) rs

first_match-add_rules :
    (f : Rule → Bool) (router : Router) (rs : List Rule)
    → IsSorted router.rules
    → first_match f (add_rules router rs).rules ≡ better (first_match f router.rules) (best f rs)
first_match-add_rules f router [] h = sym (better-none (first_match f router.rules))
first_match-add_rules f router (r ∷ rs) h =
    let more : IsSorted (add_rule router r).rules =
      unfold add_rule in insert_rule-IsSorted router.rules r h in
    let one : first_match f (add_rule router r).rules
        ≡ better (first_match f router.rules) (matched f r) =
      unfold add_rule in first_match-insert_rule f router.rules r h in
    first_match-add_rules f (add_rule router r) rs more
    ∙ (ap (λ o. better o (best f rs)) one
        ∙ better_assoc (first_match f router.rules) (matched f r) (best f rs))

-- The decision on a message with the rule that was chosen for it.
abbrev decide_by : Router → Message → Decision → Option Rule → Decision
decide_by router m d chosen =
    if is_dupe router.dupecheck m
    then set_drop d (some (codes "Duplicate message"))
    else apply_rule chosen m (analyze_message router m) d

abbrev pub decide : (List ℕ → List ℕ → Bool) → Router → List Rule → Message → Decision → Decision
decide fnmatch router rs m d =
    decide_by router m d (best (is_match fnmatch (analyze_message router m)) rs)

add_rules-same :
    (router : Router) (rs : List Rule)
    → ((add_rules router rs).config ≡ router.config)
      × ((add_rules router rs).dupecheck ≡ router.dupecheck)
unfolding add_rule
add_rules-same router [] = (refl, refl)
add_rules-same router (r ∷ rs) = add_rules-same (add_rule router r) rs

-- A new router to which rules are added one by one decides on a message as the list of the rules in
-- the order of their addition says: by the rule with the smallest number among those that match, the
-- first of them where several have that number, and by default when none matches.
pub route_message-add_rules :
    (fnmatch : List ℕ → List ℕ → Bool)
    → (config : Config) (dupecheck : Option Db) (rs : List Rule) (m : Message) (d : Decision)
    → route_message fnmatch (add_rules (router_new config dupecheck) rs) m d
      ≡ decide fnmatch (router_new config dupecheck) rs m d
unfolding route_message router_new analyze_message
route_message-add_rules fnmatch config dupecheck rs m d =
    let start = router_new config dupecheck in
    let all = add_rules start rs in
    let (p, q) = add_rules-same start rs in
    let same : all ≡ record { config = config; dupecheck = dupecheck; rules = all.rules } =
      λ i. record { config = p i; dupecheck = q i; rules = all.rules } in
    let chosen : first_match (is_match fnmatch (analyze_message start m)) all.rules
        ≡ best (is_match fnmatch (analyze_message start m)) rs =
      first_match-add_rules (is_match fnmatch (analyze_message start m)) start rs tt in
    ap (λ router. route_message fnmatch router m d) same ∙ ap (λ o. decide_by start m d o) chosen
