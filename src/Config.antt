-- ===== src/Config.antt =====
-- What the other parts read of the configuration: include/ftn/config.h. A text that is not set is
-- NULL, `none` here.
use lib_ftn.Common.{ℕ, Bool, Option, none, List, [], ◌∷◌}
use lib_ftn.Address.{Address}

pub record NetworkConfig : Type 0 where
  pub section_name : List ℕ
  pub address_str : Option (List ℕ)
  pub address : Address
  pub password : Option (List ℕ)
  pub use_compression : Bool
  pub plz_mode : ℕ
  pub plz_level : ℕ

-- `networks` with `network_count`; the list is empty where the pointer is NULL.
pub record Config : Type 0 where
  pub networks : List NetworkConfig

-- `networks && network_count > 0 && networks[0].password`
abbrev pub first_password : Config → Option (List ℕ)
first_password config = elim config.networks [ [] ↦ none | n ∷ rest ↦ n.password ]

abbrev pub first_address : Config → Option (List ℕ)
first_address config = elim config.networks [ [] ↦ none | n ∷ rest ↦ n.address_str ]
