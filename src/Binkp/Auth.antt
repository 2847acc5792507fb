-- ===== src/Binkp/Auth.antt =====
-- Authentication by password: src/binkp/auth.c with the types of include/ftn/binkp/auth.h. `malloc`
-- succeeds; the log is left out.
pub mod Password
mod Tests
use lib_ftn.Common.{
  ℕ, zero, suc, Bool, true, false, ◌||◌, Option, none, some, List, [], ◌∷◌, ◌++◌, str_eq, ◌==◌,
  if◌then◌else◌, take,
}
use lib_ftn.Config.{Config, NetworkConfig}

-- `ftn_binkp_auth_result_t`
pub data AuthResult : Type 0 where
  auth_success auth_failed auth_no_password auth_invalid_address : AuthResult

-- `ftn_binkp_auth_context_t`
pub record AuthContext : Type 0 where
  pub config : Option Config
  pub remote_address : Option (List ℕ)
  pub provided_password : Option (List ℕ)
  pub is_secure : Bool
  pub authenticated : Bool

-- `ftn_binkp_auth_init`
unfoldable pub auth_init : Config → AuthContext
auth_init config = record {
  config = some config;
  remote_address = none;
  provided_password = none;
  is_secure = false;
  authenticated = false;
}

-- `ftn_binkp_auth_free`
unfoldable pub auth_free : AuthContext → AuthContext
auth_free ctx = record {
  config = none;
  remote_address = none;
  provided_password = none;
  is_secure = false;
  authenticated = false;
}

-- `ftn_binkp_address_matches`
abbrev pub address_matches : List ℕ → List ℕ → Bool
address_matches a b = str_eq a b

-- `ftn_binkp_normalize_address`
abbrev pub normalize_address : List ℕ → List ℕ
normalize_address a = a

abbrev cons_word : List ℕ → List (List ℕ) → List (List ℕ)
cons_word [] later = later
cons_word (c ∷ word) later = (c ∷ word) ∷ later

-- The word that a list starts with, and those after it, as calls of `strtok_r` with " \t" give them.
cut_words : List ℕ → List ℕ × List (List ℕ)
cut_words [] = ([], [])
cut_words (c ∷ s) =
    let cut = cut_words s in
    if (c == b' ') || (c == 9) then ([], cons_word cut.0 cut.1) else (c ∷ cut.0, cut.1)

normalize_all : List (List ℕ) → List (List ℕ)
normalize_all [] = []
normalize_all (a ∷ addresses) = normalize_address a ∷ normalize_all addresses

-- `ftn_binkp_parse_address_list`: no more than ten addresses are taken.
unfoldable pub parse_address_list : List ℕ → List (List ℕ)
unfolding cut_words normalize_all
parse_address_list s = let cut = cut_words s in take 10 (normalize_all (cons_word cut.0 cut.1))

matches_set : List ℕ → Option (List ℕ) → Bool
matches_set a none = false
matches_set a (some s) = address_matches a s

-- The inner loop of `ftn_binkp_validate_address`.
unfoldable pub is_configured : List NetworkConfig → List ℕ → Bool
unfolding matches_set
is_configured [] a = false
is_configured (n ∷ networks) a = matches_set a n.address_str || is_configured networks a

-- The outer loop: the first address that is configured.
unfoldable pub find_configured : List NetworkConfig → List (List ℕ) → Option (List ℕ)
unfolding is_configured
find_configured networks [] = none
find_configured networks (a ∷ addresses) =
    let later = find_configured networks addresses in
    if is_configured networks a then some a else later

validated : AuthContext → Option (List ℕ) → AuthResult × AuthContext
validated ctx none = (auth_invalid_address, ctx)
validated ctx (some a) = (auth_success, record ctx { remote_address = some a })

networks_of : Option Config → List NetworkConfig
networks_of none = []
networks_of (some config) = config.networks

-- `ftn_binkp_validate_address` with a context that was initialised.
unfoldable pub validate_address_list : AuthContext → List ℕ → AuthResult × AuthContext
unfolding validated networks_of
validate_address_list ctx s =
    validated ctx (find_configured (networks_of ctx.config) (parse_address_list s))

-- The password of a network for an address, if both are set and the address is that of the network.
unfoldable pub network_password : Option (List ℕ) → Option (List ℕ) → List ℕ → Option (List ℕ)
network_password none password a = none
network_password (some s) none a = none
network_password (some s) (some password) a = if address_matches a s then some password else none

abbrev or_next : Option (List ℕ) → Option (List ℕ) → Option (List ℕ)
or_next none later = later
or_next (some password) later = some password

-- `ftn_binkp_lookup_password` for an address that is not NULL; `none` is an error.
unfoldable pub lookup_password : List NetworkConfig → List ℕ → Option (List ℕ)
unfolding network_password
lookup_password [] a = none
lookup_password (n ∷ networks) a =
    or_next (network_password n.address_str n.password a) (lookup_password networks a)

unfoldable pub lookup_remote : List NetworkConfig → Option (List ℕ) → Option (List ℕ)
lookup_remote networks none = none
lookup_remote networks (some a) = lookup_password networks a

unfoldable pub compare_password : AuthContext → List ℕ → Option (List ℕ) → AuthResult × AuthContext
compare_password ctx password none = (auth_no_password, ctx)
compare_password ctx password (some expected) =
    if str_eq password expected
    then (auth_success, record ctx { authenticated = true; is_secure = true })
    else (auth_failed, ctx)

-- `ftn_binkp_authenticate_password`
unfoldable pub authenticate_password : AuthContext → List ℕ → AuthResult × AuthContext
unfolding lookup_remote compare_password networks_of
authenticate_password ctx password =
    compare_password (record ctx { provided_password = some password }) password
      (lookup_remote (networks_of ctx.config) ctx.remote_address)

is_set : Option (List ℕ) → Bool
is_set none = false
is_set (some password) = true

-- `ftn_binkp_requires_password`
unfoldable pub requires_password : Config → List ℕ → Bool
unfolding is_set
requires_password config a = is_set (lookup_password config.networks a)
