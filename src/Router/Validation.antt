-- ===== src/Router/Validation.antt =====
-- Which addresses `ftn_router_validate_address` of src/router.c accepts.
use lib_ftn.Common.{
  ℕ, ◌<◌, Bool, true, false, ◌||◌, Option, none, some, List, [], ◌∷◌, ◌++◌, str_eq, ◌==◌,
}
use lib_ftn.Common.{if◌then◌else◌, ◌≡◌, ◌≢◌, inl, inr, refl, ap, arith, All}
use lib_ftn.Common.{str_eq→eq, str_eq_refl, if_some, ◌↔◌}
use lib_ftn.Address.{Address}
use lib_ftn.Config.{NetworkConfig}
use lib_ftn.Error.{FtnError, ok, invalid}
use lib_ftn.Router.{Router, find_network, check_network, validate_address}

-- The first network with the zone of the address.
abbrev pub IsFirstOfZone : List NetworkConfig → Address → List ℕ → Type 0
IsFirstOfZone networks addr name =
    (before : List NetworkConfig) × (n : NetworkConfig) × (after : List NetworkConfig) × (networks
      ≡ before ++ (n ∷ after))
    × All (λ x. x.address.zone ≢ addr.zone) before
    × (n.address.zone ≡ addr.zone)
    × (n.section_name ≡ name)

find_network-IsFirstOfZone :
    (networks : List NetworkConfig) (addr : Address) (name : List ℕ)
    → find_network networks addr ≡ some name
    → IsFirstOfZone networks addr name
unfolding find_network
find_network-IsFirstOfZone [] addr name h = absurd (ground arith)
find_network-IsFirstOfZone (n ∷ networks) addr name h =
    elim (if_some (addr.zone == n.address.zone) n.section_name name (find_network networks addr)
      h) [
        | inl (here, same) ↦ ([], n, networks, refl, tt, ground arith, same)
        | inr (other, later) ↦
            let (before, m, after, split, missed, zone, same) =
              find_network-IsFirstOfZone networks addr name later in
            (n ∷ before, m, after, ap (λ xs. n ∷ xs) split, (ground arith, missed), zone, same)
      ]

find_network-split :
    (before after : List NetworkConfig) (n : NetworkConfig) (addr : Address)
    → All (λ x. x.address.zone ≢ addr.zone) before
    → n.address.zone ≡ addr.zone
    → find_network (before ++ (n ∷ after)) addr ≡ some n.section_name
unfolding find_network
find_network-split [] after n addr h zone =
    let hit : (addr.zone == n.address.zone) ≡ true = ground arith in rw hit refl
find_network-split (x ∷ before) after n addr (p, h) zone =
    let miss : (addr.zone == x.address.zone) ≡ false = ground arith in
    rw miss (find_network-split before after n addr h zone)

abbrev pub IsNamed : Option (List ℕ) → List ℕ → Type 0
IsNamed none name = Unit
IsNamed (some network) name = network ≡ name

-- An address that is accepted, for a network if one is asked for.
abbrev pub IsAccepted : List NetworkConfig → Address → Option (List ℕ) → Type 0
IsAccepted networks addr network =
    (0 < addr.zone)
    × (0 < addr.net)
    × ((name : List ℕ) × IsFirstOfZone networks addr name × IsNamed network name)

accepted : (b : Bool) → (if b then ok else invalid) ≡ ok → b ≡ true
accepted true h = refl
accepted false h = absurd (ground arith)

refused : (b : Bool) (e : FtnError) → (if b then invalid else e) ≡ ok → (b ≡ false) × (e ≡ ok)
refused true e h = absurd (ground arith)
refused false e h = (refl, h)

check_network-IsNamed :
    (found : Option (List ℕ)) (network : Option (List ℕ))
    → check_network found network ≡ ok
    → (name : List ℕ) × ◌≡◌ {A = Option (List ℕ)} found (some name) × IsNamed network name
unfolding check_network
check_network-IsNamed none network h = absurd (ground arith)
check_network-IsNamed (some found) none h = (found, refl, tt)
check_network-IsNamed (some found) (some network) h =
    (found, refl, str_eq→eq network found (accepted (str_eq network found) h))

named-check_network :
    (found : List ℕ) (network : Option (List ℕ))
    → IsNamed network found
    → check_network (some found) network ≡ ok
unfolding check_network
named-check_network found none h = refl
named-check_network found (some network) h = rw (h, str_eq_refl found) refl

-- `ftn_router_validate_address` accepts an address exactly when its zone and net are not 0, some
-- network of the configuration has its zone, and, where a network is asked for, the first of these
-- has that name.
pub validate_address-IsAccepted :
    (router : Router) (addr : Address) (network : Option (List ℕ))
    → (validate_address router addr network ≡ ok) ↔ IsAccepted router.config.networks addr network
unfolding validate_address
validate_address-IsAccepted router addr network = (forward, backward)
  where
    networks : List NetworkConfig
    networks = router.config.networks

    forward :
        (if (addr.zone == 0) || (addr.net == 0)
            then invalid
            else check_network (find_network networks addr) network)
          ≡ ok
        → IsAccepted networks addr network
    forward h =
        let (zeros, checked) =
          refused ((addr.zone == 0) || (addr.net == 0))
            (check_network (find_network networks addr) network) h in
        let (name, found, named) =
          check_network-IsNamed (find_network networks addr) network checked in
        (
          ground arith,
          ground arith,
          (name, find_network-IsFirstOfZone networks addr name found, named),
        )

    backward :
        IsAccepted networks addr network
        → (if (addr.zone == 0) || (addr.net == 0)
            then invalid
            else check_network (find_network networks addr) network)
          ≡ ok
    backward (zone, net, (name, (before, n, after, split, missed, same, called), named)) =
        let zeros : (addr.zone == 0) || (addr.net == 0) ≡ false = ground arith in
        let found : find_network networks addr ≡ some name =
          rw (split, ← called) (find_network-split before after n addr missed same) in
        rw (zeros, found) (named-check_network name network named)
