-- ===== src/Router/Tests.antt =====
-- Runs of the theorems on routers.
use lib_ftn.Common.{
  ℕ, Bool, true, false, none, some, List, [], ◌∷◌, codes, ◌≡◌, ◌↔◌, refl, str_eq, ◌==◌, ◌&&◌,
  if◌then◌else◌,
}
use lib_ftn.Address.{Address}
use lib_ftn.Config.{Config}
use lib_ftn.Dupecheck.{
  db_new, add_message, message_id, extract_msgid, known_as, normalize_msgid, squeeze,
}
use lib_ftn.Dupecheck.{is_valid_msgid, dupecheck_trim}
use lib_ftn.Common.Text.{skip_space}
use lib_ftn.Trim.{trim_end}
use lib_ftn.Error.{ok}
use lib_ftn.Message.{Message, message_new, netmail}
use lib_ftn.Router.{Router, decision_new, router_new, add_rule, route_message, set_drop}
use lib_ftn.Router.{analyze_message, validate_address, is_local_address, is_asked, find_network}
use lib_ftn.Router.Rules.{Rule, route_forward, route_drop, insert_rule, insert_from_end}
use lib_ftn.Router.Chosen.{add_rules, decide, route_message-add_rules}
use lib_ftn.Router.Invariant.{fresh, added, IsUrgent, Reachable-first_match}
use lib_ftn.Router.Routing.{route_message-add_message, IsListed, analyze_message-IsListed}
use lib_ftn.Router.Validation.{IsAccepted, validate_address-IsAccepted}

-- Patterns of characters for themselves and of `*` for all that is left.
abbrev glob : List ℕ → List ℕ → Bool
glob [] [] = true
glob [] (c ∷ text) = false
glob (p ∷ pattern) [] = p == b'*'
glob (p ∷ pattern) (c ∷ text) =
    let later = glob pattern text in if p == b'*' then true else (p == c) && later

abbrev our_address : Address
our_address = record { zone = 21; net = 1; node = 100; point = 0 }

abbrev config : Config
config = record {
  networks =
      record {
        section_name = codes "fsxnet";
        address_str = some (codes "21:1/100");
        address = our_address;
        password = none;
        use_compression = false;
        plz_mode = 0;
        plz_level = 0;
      }
      ∷ [];
}

abbrev forward_rule : Rule
forward_rule = record {
  name = codes "hub";
  pattern = codes "addr:21:*";
  action = route_forward;
  parameter = none;
  priority = 10;
}

abbrev drop_rule : Rule
drop_rule = record {
  name = codes "spam";
  pattern = codes "addr:21:*";
  action = route_drop;
  parameter = some (codes "Unwanted");
  priority = 5;
}

-- A mail to our own address with an id.
abbrev our_mail : Message
unfolding message_new
our_mail = record (message_new netmail 1000) {
  dest_addr = our_address;
  control_lines = codes "MSGID: 1:2/3 ABCD" ∷ [];
}

route_message-add_rules_example :
    route_message glob
      (add_rules (router_new config none) (forward_rule ∷ (drop_rule ∷ [])))
      our_mail
      decision_new
    ≡ decide glob (router_new config none) (forward_rule ∷ (drop_rule ∷ [])) our_mail decision_new
route_message-add_rules_example =
    route_message-add_rules glob config none (forward_rule ∷ (drop_rule ∷ [])) our_mail decision_new

abbrev two_rules : Router
two_rules = add_rule (add_rule (router_new config none) forward_rule) drop_rule

two_rules-split : two_rules.rules ≡ drop_rule ∷ (forward_rule ∷ [])
unfolding add_rule router_new insert_rule insert_from_end
two_rules-split = refl

Reachable-first_match_example : IsUrgent (λ r. true) two_rules.rules forward_rule
Reachable-first_match_example =
    Reachable-first_match {dupecheck = none} (λ r. true) (drop_rule ∷ []) [] forward_rule
      (added (added fresh forward_rule) drop_rule) two_rules-split refl

our_mail_id : message_id our_mail ≡ some (codes "1:2/3 abcd")
unfolding message_id extract_msgid known_as normalize_msgid squeeze is_valid_msgid dupecheck_trim
    our_mail str_eq trim_end skip_space
our_mail_id = refl

route_message-add_message_example :
    route_message glob
      (record {
        config = config;
        dupecheck = some (add_message db_new 1000 our_mail);
        rules = forward_rule ∷ [];
      })
      our_mail
      decision_new
    ≡ set_drop decision_new (some (codes "Duplicate message"))
route_message-add_message_example =
    route_message-add_message glob config (forward_rule ∷ []) db_new 1000 our_mail our_mail
      (codes "1:2/3 abcd") decision_new our_mail_id our_mail_id

our_mail_local : (analyze_message two_rules our_mail).is_local ≡ true
unfolding analyze_message add_rule router_new is_local_address find_network is_asked str_eq our_mail
our_mail_local = refl

analyze_message-IsListed_example :
    (name : List ℕ) × ((analyze_message two_rules our_mail).network_name ≡ some name)
    × IsListed two_rules.config.networks our_mail.dest_addr name
analyze_message-IsListed_example = analyze_message-IsListed two_rules our_mail our_mail_local

validate_address-IsAccepted_example :
    (validate_address two_rules our_address none ≡ ok)
    ↔ IsAccepted two_rules.config.networks our_address none
validate_address-IsAccepted_example = validate_address-IsAccepted two_rules our_address none
