-- ===== src/Binkp/Auth/Password.antt =====
-- Who is authenticated by src/binkp/auth.c.
use lib_ftn.Common.{
  ℕ, Bool, true, false, Option, none, some, List, [], ◌∷◌, ◌++◌, str_eq, if◌then◌else◌,
}
use lib_ftn.Common.{◌≡◌, ◌⊎◌, inl, inr, refl, sym, ap, arith, str_eq→eq, if_some}
use lib_ftn.Config.{Config, NetworkConfig}
use lib_ftn.Binkp.Auth.{
  AuthResult, auth_success, auth_failed, AuthContext, auth_init, parse_address_list, is_configured,
  find_configured, validated, networks_of, validate_address_list, network_password, or_next,
  lookup_password, lookup_remote, compare_password, authenticate_password,
}
use mathlib.Core.Option.{none-ne-some}

abbrev pub IsListedIn : List (List ℕ) → List ℕ → Type 0
IsListedIn addresses a =
    (before : List (List ℕ)) × (after : List (List ℕ)) × (addresses ≡ before ++ (a ∷ after))

-- A network of the address has the password.
abbrev pub IsPasswordOf : List NetworkConfig → List ℕ → List ℕ → Type 0
IsPasswordOf networks a password =
    (before : List NetworkConfig) × (n : NetworkConfig) × (after : List NetworkConfig) × (networks
      ≡ before ++ (n ∷ after))
    × (n.address_str ≡ some a)
    × (n.password ≡ some password)

find_configured-IsListedIn :
    (networks : List NetworkConfig) (addresses : List (List ℕ)) (a : List ℕ)
    → find_configured networks addresses ≡ some a
    → IsListedIn addresses a
unfolding find_configured
find_configured-IsListedIn networks [] a h = absurd (none-ne-some a h)
find_configured-IsListedIn networks (x ∷ addresses) a h =
    elim (if_some (is_configured networks x) x a (find_configured networks addresses) h) [
      | inl (_, same) ↦ ([], addresses, ap (λ y. y ∷ addresses) same)
      | inr (_, later) ↦
          let (before, after, split) = find_configured-IsListedIn networks addresses a later in
          (x ∷ before, after, ap (λ xs. x ∷ xs) split)
    ]

network_password-set :
    (s o : Option (List ℕ)) (a password : List ℕ)
    → network_password s o a ≡ some password
    → ◌≡◌ {A = Option (List ℕ)} s (some a) × ◌≡◌ {A = Option (List ℕ)} o (some password)
unfolding network_password
network_password-set none o a password h = absurd (none-ne-some password h)
network_password-set (some s) none a password h = absurd (none-ne-some password h)
network_password-set (some s) (some p) a password h =
    elim (if_some (str_eq a s) p password none h) [
      | inl (same, equal) ↦ (
        ap {B = Option (List ℕ)} some (sym (str_eq→eq a s same)),
        ap {B = Option (List ℕ)} some equal,
      )
      | inr (_, later) ↦ absurd (none-ne-some password later)
    ]

either_next :
    (o later : Option (List ℕ)) (password : List ℕ)
    → or_next o later ≡ some password
    → (o ≡ some password) ⊎ (later ≡ some password)
either_next none later password h = inr h
either_next (some p) later password h = inl h

lookup_password-IsPasswordOf :
    (networks : List NetworkConfig) (a password : List ℕ)
    → lookup_password networks a ≡ some password
    → IsPasswordOf networks a password
unfolding lookup_password
lookup_password-IsPasswordOf [] a password h = absurd (none-ne-some password h)
lookup_password-IsPasswordOf (n ∷ networks) a password h =
    elim (either_next (network_password n.address_str n.password a) (lookup_password networks a)
      password h) [
        | inl here ↦
            let (address, set) = network_password-set n.address_str n.password a password here in
            ([], n, networks, refl, address, set)
        | inr there ↦
            let (before, m, after, split, address, set) =
              lookup_password-IsPasswordOf networks a password there in
            (n ∷ before, m, after, ap (λ xs. n ∷ xs) split, address, set)
      ]

tested :
    (b : Bool) (x y : AuthResult × AuthContext)
    → y.1.authenticated ≡ false
    → (if b then x else y).1.authenticated ≡ true
    → b ≡ true
tested true x y h k = refl
tested false x y h k = absurd (ground arith)

compare_password-some :
    (ctx : AuthContext) (password : List ℕ) (o : Option (List ℕ))
    → ctx.authenticated ≡ false
    → (compare_password ctx password o).1.authenticated ≡ true
    → o ≡ some password
unfolding compare_password
compare_password-some ctx password none h k = absurd (ground arith)
compare_password-some ctx password (some expected) h k =
    let same : str_eq password expected ≡ true =
      tested (str_eq password expected)
        (auth_success, record ctx { authenticated = true; is_secure = true }) (auth_failed, ctx) h
        k in
    ap {B = Option (List ℕ)} some (sym (str_eq→eq password expected same))

authenticated_by :
    (config : Config) (addresses : List (List ℕ)) (password : List ℕ) (o : Option (List ℕ))
    → find_configured config.networks addresses ≡ o
    → (authenticate_password (validated (auth_init config) o).1 password).1.authenticated ≡ true
    → (a : List ℕ) × IsListedIn addresses a × IsPasswordOf config.networks a password
unfolding authenticate_password auth_init validated networks_of lookup_remote
authenticated_by config addresses password none e k = absurd (
    none-ne-some password (
      compare_password-some (record (auth_init config) { provided_password = some password })
        password none refl k))
authenticated_by config addresses password (some a) e k = (
  a,
  find_configured-IsListedIn config.networks addresses a e,
  lookup_password-IsPasswordOf config.networks a password
      (compare_password-some _ password (lookup_password config.networks a) refl k),
)

-- Whoever is authenticated after `ftn_binkp_auth_init`, `ftn_binkp_validate_address` with a list of
-- addresses and `ftn_binkp_authenticate_password` has named an address in that list, and given the
-- password of a configured network with this address.
pub authenticate_password-IsPasswordOf :
    (config : Config) (s password : List ℕ)
    → (authenticate_password
        (validate_address_list (auth_init config) s).1
        password).1.authenticated
      ≡ true
    → (a : List ℕ) × IsListedIn (parse_address_list s) a × IsPasswordOf config.networks a password
unfolding validate_address_list auth_init networks_of
authenticate_password-IsPasswordOf config s password h =
    authenticated_by config (parse_address_list s) password
      (find_configured config.networks (parse_address_list s)) refl h
