-- ===== src/Binkp/Auth/Tests.antt =====
-- Runs of the theorems on authentication.
use lib_ftn.Common.{ℕ, true, false, some, List, [], ◌∷◌, codes, ◌≡◌, refl, str_eq}
use lib_ftn.Config.{Config}
use lib_ftn.Binkp.Auth.{
  auth_init, parse_address_list, cut_words, normalize_all, find_configured, is_configured,
  matches_set, validated, networks_of, validate_address_list, lookup_password, network_password,
  lookup_remote, compare_password, authenticate_password,
}
use lib_ftn.Binkp.Auth.Password.{IsListedIn, IsPasswordOf, authenticate_password-IsPasswordOf}

abbrev config : Config
config = record {
  networks =
      record {
        section_name = codes "fsxnet";
        address_str = some (codes "21:1/100");
        address = record { zone = 21; net = 1; node = 100; point = 0 };
        password = some (codes "secret");
        use_compression = false;
        plz_mode = 0;
        plz_level = 0;
      }
      ∷ [];
}

is_authenticated :
    (authenticate_password
      (validate_address_list (auth_init config) (codes "1:2/3 21:1/100")).1
      (codes "secret")).1.authenticated
    ≡ true
unfolding authenticate_password validate_address_list auth_init validated networks_of
    find_configured is_configured matches_set parse_address_list cut_words normalize_all
    lookup_remote lookup_password network_password compare_password str_eq
is_authenticated = refl

authenticate_password-IsPasswordOf_example :
    (a : List ℕ) × IsListedIn (parse_address_list (codes "1:2/3 21:1/100")) a
    × IsPasswordOf config.networks a (codes "secret")
authenticate_password-IsPasswordOf_example =
    authenticate_password-IsPasswordOf config (codes "1:2/3 21:1/100") (codes "secret")
      is_authenticated
