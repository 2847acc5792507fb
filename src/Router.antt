-- ===== src/Router.antt =====
-- The routing of messages: src/router.c with the types of include/ftn/router.h. `fnmatch` of the C
-- library, with FNM_CASEFOLD and the answer 0, is a parameter. Pointers that the code tests for NULL
-- first are never NULL here, and `malloc` succeeds, so that most functions have no code to return.
pub mod Rules
pub mod Chosen
pub mod Invariant
pub mod Routing
pub mod Validation
mod Tests
use lib_ftn.Common.{
  ℕ, ◌-◌, ◌^◌, Bool, true, false, ◌&&◌, ◌||◌, Option, none, some, List, [], ◌∷◌, ◌++◌,
}
use lib_ftn.Common.{take, drop, ◌==◌, ltb, if◌then◌else◌, str_eq, codes}
use lib_ftn.Common.Text.{decimal, printed}
use lib_ftn.Address.{Address, no_address}
use lib_ftn.Config.{Config, NetworkConfig}
use lib_ftn.Dupecheck.{Db, is_duplicate}
use lib_ftn.Error.{FtnError, ok, notfound, invalid}
use lib_ftn.Message.{Message, MessageType, netmail, echomail}
use lib_ftn.Router.Rules.{RoutingAction, Rule, insert_rule, delete_rule}
use lib_ftn.Router.Rules.{
  route_local_mail, route_local_news, route_forward, route_bounce, route_drop,
}

-- `ftn_routing_decision_t`
pub record Decision : Type 0 where
  pub action : RoutingAction
  pub destination_path : Option (List ℕ)
  pub destination_user : Option (List ℕ)
  pub destination_area : Option (List ℕ)
  pub forward_to : Address
  pub network_name : Option (List ℕ)
  pub reason : Option (List ℕ)

-- `ftn_routing_decision_new`: all bytes are 0.
abbrev pub decision_new : Decision
decision_new = record {
  action = route_local_mail;
  destination_path = none;
  destination_user = none;
  destination_area = none;
  forward_to = no_address;
  network_name = none;
  reason = none;
}

-- `ftn_router_t`; a pointer to a database that is NULL is `none`.
pub record Router : Type 0 where
  pub config : Config
  pub dupecheck : Option Db
  pub rules : List Rule

-- `ftn_router_new`
unfoldable pub router_new : Config → Option Db → Router
router_new config dupecheck = record { config = config; dupecheck = dupecheck; rules = [] }

-- `ftn_router_add_rule`
unfoldable pub add_rule : Router → Rule → Router
add_rule router r = record router { rules = insert_rule router.rules r }

removed : Router → Option (List Rule) → FtnError × Router
removed router none = (notfound, router)
removed router (some rules) = (ok, record router { rules = rules })

-- `ftn_router_remove_rule`
unfoldable pub remove_rule : Router → List ℕ → FtnError × Router
unfolding removed
remove_rule router name = removed router (delete_rule router.rules name)

-- `ftn_destination_t`
pub record Destination : Type 0 where
  pub address : Address
  pub area_name : Option (List ℕ)
  pub network_name : Option (List ℕ)
  pub is_local : Bool

abbrev pub is_same_address : Address → Address → Bool
is_same_address a b =
    (a.zone == b.zone) && ((a.net == b.net) && ((a.node == b.node) && (a.point == b.point)))

-- `network && strcmp(net_config->section_name, network) != 0` does not skip the network.
unfoldable pub is_asked : Option (List ℕ) → List ℕ → Bool
is_asked none name = true
is_asked (some network) name = str_eq name network

-- `ftn_router_is_local_address` over the networks of the configuration.
unfoldable pub is_local_address : List NetworkConfig → Address → Option (List ℕ) → Bool
unfolding is_asked
is_local_address [] addr network = false
is_local_address (n ∷ networks) addr network =
    (is_asked network n.section_name && is_same_address addr n.address)
    || is_local_address networks addr network

-- `ftn_router_find_network_for_address`; `none` is the code FTN_ERROR_NOTFOUND.
unfoldable pub find_network : List NetworkConfig → Address → Option (List ℕ)
find_network [] addr = none
find_network (n ∷ networks) addr =
    let later = find_network networks addr in
    if addr.zone == n.address.zone then some n.section_name else later

-- `ftn_router_get_message_area`, called for echomail only.
abbrev pub message_area : MessageType → Option (List ℕ) → Option (List ℕ)
message_area netmail area = none
message_area echomail area = area

-- `ftn_router_analyze_message`
unfoldable pub analyze_message : Router → Message → Destination
unfolding is_local_address find_network
analyze_message router m =
    let name = find_network router.config.networks m.dest_addr in
    record {
      address = m.dest_addr;
      area_name = message_area m.kind m.area;
      network_name = name;
      is_local = is_local_address router.config.networks m.dest_addr name;
    }

-- `%d` of an `unsigned int`: a word of 32 bits in two's complement.
abbrev pub signed_text : ℕ → List ℕ
signed_text n = if ltb n (2 ^ 31) then decimal n else b'-' ∷ decimal (2 ^ 32 - n)

-- `ftn_router_format_address`, and the text that `ftn_router_address_match` makes.
unfoldable pub format_address : Address → List ℕ
format_address a = printed 64 (
    signed_text a.zone
    ++ (b':'
        ∷ (signed_text a.net ++ (b'/' ∷ (signed_text a.node ++ (b'.' ∷ signed_text a.point))))))

-- `if (pointer) field = strdup(pointer)`
abbrev pub set_text : Option (List ℕ) → Option (List ℕ) → Option (List ℕ)
set_text none before = before
set_text (some text) before = some text

-- `ftn_routing_decision_set_local_mail`
abbrev pub set_local_mail : Decision → Option (List ℕ) → Option (List ℕ) → Decision
set_local_mail d user path = record d {
  action = route_local_mail;
  destination_user = set_text user d.destination_user;
  destination_path = set_text path d.destination_path;
}

-- `ftn_routing_decision_set_local_news`
abbrev pub set_local_news : Decision → Option (List ℕ) → Option (List ℕ) → Decision
set_local_news d area path = record d {
  action = route_local_news;
  destination_area = set_text area d.destination_area;
  destination_path = set_text path d.destination_path;
}

-- `ftn_routing_decision_set_forward`
abbrev pub set_forward : Decision → Address → Option (List ℕ) → Decision
set_forward d addr network = record d {
  action = route_forward;
  forward_to = addr;
  network_name = set_text network d.network_name;
}

-- `ftn_routing_decision_set_bounce`
abbrev pub set_bounce : Decision → Option (List ℕ) → Decision
set_bounce d reason = record d { action = route_bounce; reason = set_text reason d.reason }

-- `ftn_routing_decision_set_drop`
abbrev pub set_drop : Decision → Option (List ℕ) → Decision
set_drop d reason = record d { action = route_drop; reason = set_text reason d.reason }

-- `ftn_router_area_match`, where the pattern comes after "area:".
area_matches : (List ℕ → List ℕ → Bool) → List ℕ → Option (List ℕ) → Bool
area_matches fnmatch pattern none = false
area_matches fnmatch pattern (some area) = fnmatch pattern area

-- Whether the pattern of a rule matches, as in the loop of `ftn_router_route_message`.
unfoldable pub is_match : (List ℕ → List ℕ → Bool) → Destination → Rule → Bool
unfolding area_matches
is_match fnmatch dest r =
    if str_eq (take 5 r.pattern) (codes "area:")
    then area_matches fnmatch (drop 5 r.pattern) dest.area_name
    else if str_eq (take 5 r.pattern) (codes "addr:")
    then fnmatch (drop 5 r.pattern) (format_address dest.address)
    else fnmatch r.pattern (format_address dest.address)

-- The `switch` on the action of the matching rule.
unfoldable pub apply_action :
    RoutingAction → Option (List ℕ) → Message → Destination → Decision → Decision
apply_action route_local_mail parameter m dest d = set_local_mail d m.to_user parameter
apply_action route_local_news parameter m dest d = set_local_news d dest.area_name parameter
apply_action route_forward parameter m dest d = set_forward d dest.address dest.network_name
apply_action route_bounce parameter m dest d = set_bounce d parameter
apply_action route_drop parameter m dest d = set_drop d parameter

-- What happens to echomail that no rule matches.
unfoldable pub default_echomail : Option (List ℕ) → Decision → Decision
default_echomail none d = set_drop d (some (codes "No area specified"))
default_echomail (some area) d = set_local_news d (some area) none

-- The default routing; there is no third type of message.
unfoldable pub default_route : MessageType → Message → Destination → Decision → Decision
unfolding default_echomail
default_route netmail m dest d =
    if dest.is_local
    then set_local_mail d m.to_user none
    else set_forward d dest.address dest.network_name
default_route echomail m dest d = default_echomail dest.area_name d

-- The loop over the rules of `ftn_router_route_message`.
unfoldable pub first_match : (Rule → Bool) → List Rule → Option Rule
first_match matches [] = none
first_match matches (r ∷ rules) =
    let later = first_match matches rules in if matches r then some r else later

unfoldable pub apply_rule : Option Rule → Message → Destination → Decision → Decision
unfolding apply_action default_route
apply_rule none m dest d = default_route m.kind m dest d
apply_rule (some r) m dest d = apply_action r.action r.parameter m dest d

unfoldable pub is_dupe : Option Db → Message → Bool
is_dupe none m = false
is_dupe (some db) m = is_duplicate db m

-- `ftn_router_route_message`: the decision it leaves.
unfoldable pub route_message : (List ℕ → List ℕ → Bool) → Router → Message → Decision → Decision
unfolding is_dupe first_match apply_rule
route_message fnmatch router m d =
    let dest = analyze_message router m in
    if is_dupe router.dupecheck m
    then set_drop d (some (codes "Duplicate message"))
    else apply_rule (first_match (is_match fnmatch dest) router.rules) m dest d

-- The network that was found against the one that was asked for.
check_network : Option (List ℕ) → Option (List ℕ) → FtnError
check_network none network = invalid
check_network (some found) none = ok
check_network (some found) (some network) = if str_eq network found then ok else invalid

-- `ftn_router_validate_address`
unfoldable pub validate_address : Router → Address → Option (List ℕ) → FtnError
unfolding check_network
validate_address router addr network =
    if (addr.zone == 0) || (addr.net == 0)
    then invalid
    else check_network (find_network router.config.networks addr) network
