-- ===== src/Address/Tests.antt =====
-- Runs of the theorems on addresses.
use lib_ftn.Common.{true, ◌≡◌, ◌↔◌, arith}
use lib_ftn.Common.Text.{decimal}
use lib_ftn.Address.{Address, address_parse, address_to_string, address_text, address_compare}
use lib_ftn.Address.RoundTrip.{address_parse-address_to_string}
use lib_ftn.Address.Order.{IsBefore, IsNegative, address_compare_lem}

abbrev point_address : Address
point_address = record { zone = 21; net = 1; node = 100; point = 5 }

abbrev node_address : Address
node_address = record { zone = 21; net = 1; node = 101; point = 0 }

address_parse-address_to_string_example :
    address_parse (address_to_string point_address 64) ≡ (true, point_address)
address_parse-address_to_string_example =
    address_parse-address_to_string point_address 64
      (record {
        zone_fits = omega arith;
        net_fits = omega arith;
        node_fits = omega arith;
        point_fits = omega arith;
      })
      (unfold address_text decimal in omega arith)

address_compare_lem_example :
    ((address_compare point_address node_address ≡ 0) ↔ (point_address ≡ node_address))
    × (IsNegative (address_compare point_address node_address)
        ↔ IsBefore point_address node_address)
address_compare_lem_example =
    address_compare_lem point_address node_address
      (record {
        zone_small = omega arith;
        net_small = omega arith;
        node_small = omega arith;
        point_small = omega arith;
      })
      (record {
        zone_small = omega arith;
        net_small = omega arith;
        node_small = omega arith;
        point_small = omega arith;
      })
