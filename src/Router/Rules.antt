-- ===== src/Router/Rules.antt =====
-- The rules of a router: `ftn_routing_rule_t` of include/ftn/router.h, `ftn_router_add_rule` and
-- `ftn_router_remove_rule` of src/router.c. A priority is an `int`, a word of 32 bits in two's
-- complement; `malloc` and `realloc` succeed, so the capacity of the array is left out.
pub mod Sorted
use lib_ftn.Common.{ℕ, ◌+◌, ◌%◌, ◌^◌, Bool, true, false, ◌&&◌, Option, none, some, List, [], ◌∷◌}
use lib_ftn.Common.{if◌then◌else◌, ltb, str_eq, codes}

-- `ftn_routing_action_t`
pub data RoutingAction : Type 0 where
  route_local_mail route_local_news route_forward route_bounce route_drop : RoutingAction

-- `ftn_router_action_to_string`; there is no sixth action.
unfoldable pub action_to_string : RoutingAction → List ℕ
action_to_string route_local_mail = codes "LOCAL_MAIL"
action_to_string route_local_news = codes "LOCAL_NEWS"
action_to_string route_forward = codes "FORWARD"
action_to_string route_bounce = codes "BOUNCE"
action_to_string route_drop = codes "DROP"

-- `ftn_router_string_to_action`
unfoldable pub string_to_action : List ℕ → RoutingAction
string_to_action s =
    if str_eq s (codes "LOCAL_MAIL")
    then route_local_mail
    else if str_eq s (codes "LOCAL_NEWS")
    then route_local_news
    else if str_eq s (codes "FORWARD")
    then route_forward
    else if str_eq s (codes "BOUNCE")
    then route_bounce
    else route_drop

pub record Rule : Type 0 where
  pub name : List ℕ
  pub pattern : List ℕ
  pub action : RoutingAction
  pub parameter : Option (List ℕ)
  pub priority : ℕ

-- The place of an `int` in the order of these numbers.
abbrev pub rank : Rule → ℕ
rank r = (r.priority + 2 ^ 31) % 2 ^ 32

-- The loop of `ftn_router_add_rule` goes down from the end of the array: it has moved all rules that
-- stand at or after the one it looks at, or it has stopped before. The flag tells which.
unfoldable pub insert_from_end : List Rule → Rule → Bool × List Rule
insert_from_end [] r = (true, r ∷ [])
insert_from_end (x ∷ xs) r =
    let after = insert_from_end xs r in
    if after.0 && ltb (rank r) (rank x) then (true, r ∷ (x ∷ xs)) else (false, x ∷ after.1)

-- `ftn_router_add_rule` on the array of rules.
unfoldable pub insert_rule : List Rule → Rule → List Rule
unfolding insert_from_end
insert_rule rules r = (insert_from_end rules r).1

keep_first : Rule → Option (List Rule) → Option (List Rule)
keep_first x none = none
keep_first x (some xs) = some (x ∷ xs)

-- The loop of `ftn_router_remove_rule`: what is left, or `none` when no rule has the name.
unfoldable pub delete_rule : List Rule → List ℕ → Option (List Rule)
unfolding keep_first
delete_rule [] name = none
delete_rule (x ∷ xs) name =
    let later = keep_first x (delete_rule xs name) in if str_eq x.name name then some xs else later
