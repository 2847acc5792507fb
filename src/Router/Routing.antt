-- ===== src/Router/Routing.antt =====
-- What `ftn_router_route_message` and `ftn_router_analyze_message` of src/router.c do with messages
-- that were seen before, and with those to local addresses.
use lib_ftn.Common.{
  ℕ, Bool, true, false, ◌&&◌, ◌||◌, Option, none, some, List, [], ◌∷◌, ◌++◌, codes, str_eq, ◌==◌,
}
use lib_ftn.Common.{
  ◌≡◌, inl, inr, refl, sym, ap, ◌∙◌, arith, Bool-cases, str_eq→eq, str_eq_refl, if_none,
}
use lib_ftn.Address.{Address}
use lib_ftn.Config.{Config, NetworkConfig}
use lib_ftn.Dupecheck.{Db, add_message, is_duplicate, message_id}
use lib_ftn.Dupecheck.Refinement.{is_duplicate-add_message, same_id}
use lib_ftn.Message.{Message}
use lib_ftn.Router.{
  Router, Decision, route_message, analyze_message, is_local_address, is_same_address, is_asked,
  find_network,
}
use lib_ftn.Router.{is_dupe, set_drop}
use lib_ftn.Router.Rules.{Rule}
use mathlib.Core.Path.{subst}

or_true : (b : Bool) → b || true ≡ true
or_true true = refl
or_true false = refl

-- A router whose database a message was added to drops every message with the id of that one, whatever
-- its rules say.
pub route_message-add_message :
    (fnmatch : List ℕ → List ℕ → Bool)
    → (config : Config) (rules : List Rule) (db : Db) (now : ℕ)
    → (m other : Message) (id : List ℕ) (d : Decision) → message_id m ≡ some id
    → message_id other ≡ some id
    → route_message fnmatch
        (record { config = config; dupecheck = some (add_message db now m); rules = rules })
        other
        d
      ≡ set_drop d (some (codes "Duplicate message"))
unfolding route_message is_dupe
route_message-add_message fnmatch config rules db now m other id d h k =
    let same : same_id (message_id m) (message_id other) ≡ true = rw (h, k) (str_eq_refl id) in
    rw (is_duplicate-add_message db now m other, same, or_true (is_duplicate db other)) refl

abbrev pub IsListed : List NetworkConfig → Address → List ℕ → Type 0
IsListed networks addr name =
    (before : List NetworkConfig) × (n : NetworkConfig) × (after : List NetworkConfig) × (networks
      ≡ before ++ (n ∷ after))
    × (n.address ≡ addr)
    × (n.section_name ≡ name)

parts : (a b : Bool) → a && b ≡ true → (a ≡ true) × (b ≡ true)
parts true b h = (refl, h)
parts false b h = absurd (ground arith)

eq_num : (m n : ℕ) → (m == n) ≡ true → n ≡ m
eq_num m n h = ground arith

is_same_address_lem : (a b : Address) → is_same_address a b ≡ true → b ≡ a
is_same_address_lem a b h =
    let one =
      parts (a.zone == b.zone) ((a.net == b.net) && ((a.node == b.node) && (a.point == b.point)))
        h in
    let two = parts (a.net == b.net) ((a.node == b.node) && (a.point == b.point)) one.1 in
    let three = parts (a.node == b.node) (a.point == b.point) two.1 in
    let zone = eq_num a.zone b.zone one.0 in
    let net = eq_num a.net b.net two.0 in
    let node = eq_num a.node b.node three.0 in
    let point = eq_num a.point b.point three.1 in
    λ i. record { zone = zone i; net = net i; node = node i; point = point i }

is_local_address-IsListed :
    (networks : List NetworkConfig) (addr : Address) (name : List ℕ)
    → is_local_address networks addr (some name) ≡ true
    → IsListed networks addr name
unfolding is_local_address is_asked
is_local_address-IsListed [] addr name h = absurd (ground arith)
is_local_address-IsListed (n ∷ networks) addr name h =
    elim (Bool-cases (str_eq n.section_name name && is_same_address addr n.address)) [
      | inl here ↦
          let (same, equal) =
            parts (str_eq n.section_name name) (is_same_address addr n.address) here in
          (
            [],
            n,
            networks,
            refl,
            is_same_address_lem addr n.address equal,
            str_eq→eq n.section_name name same,
          )
      | inr not_here ↦
          let there : is_local_address networks addr (some name) ≡ true =
            subst (λ b. b || is_local_address networks addr (some name) ≡ true) not_here h in
          let (before, m, after, split, equal, same) =
            is_local_address-IsListed networks addr name there in
          (n ∷ before, m, after, ap (λ xs. n ∷ xs) split, equal, same)
    ]

absent_zone :
    (networks : List NetworkConfig) (addr : Address)
    → find_network networks addr ≡ none
    → is_local_address networks addr none ≡ false
unfolding find_network is_local_address is_asked
absent_zone [] addr h = refl
absent_zone (n ∷ networks) addr h =
    let (miss, later) =
      if_none (addr.zone == n.address.zone) n.section_name (find_network networks addr) h in
    rw (miss, absent_zone networks addr later) refl

found_network :
    (networks : List NetworkConfig) (addr : Address) (o : Option (List ℕ))
    → find_network networks addr ≡ o
    → is_local_address networks addr o ≡ true
    → (name : List ℕ) × ◌≡◌ {A = Option (List ℕ)} o (some name) × IsListed networks addr name
found_network networks addr none found h = absurd (clash (sym h ∙ absent_zone networks addr found))
  where
    clash : true ≡ false → ⊥
    clash q = ground arith
found_network networks addr (some name) found h =
    (name, refl, is_local_address-IsListed networks addr name h)

-- What a message is analysed to be local for: a network was found for it, and one of that name is
-- configured with the very address that the message goes to.
pub analyze_message-IsListed :
    (router : Router) (m : Message)
    → (analyze_message router m).is_local ≡ true
    → (name : List ℕ) × ((analyze_message router m).network_name ≡ some name)
      × IsListed router.config.networks m.dest_addr name
unfolding analyze_message
analyze_message-IsListed router m h =
    found_network router.config.networks m.dest_addr
      (find_network router.config.networks m.dest_addr) refl h
