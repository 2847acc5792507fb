-- ===== src/Address.antt =====
-- FidoNet addresses: `ftn_address_t` of include/ftn.h and its functions in src/ftn.c. The fields are
-- of type `unsigned int`. Pointers that the code tests for NULL first are never NULL here.
pub mod Order
pub mod RoundTrip
mod Tests
use lib_ftn.Common.{
  ℕ, ◌+◌, ◌-◌, ◌%◌, ◌^◌, Bool, true, false, Option, none, some, List, [], ◌∷◌, ◌++◌, ◌==◌,
}
use lib_ftn.Common.{if◌then◌else◌, ltb}
use lib_ftn.Common.Text.{decimal, printed}
use lib_ftn.Common.Text.Long.{strtok, atoi}

pub record Address : Type 0 where
  pub zone : ℕ
  pub net : ℕ
  pub node : ℕ
  pub point : ℕ

abbrev pub no_address : Address
no_address = record { zone = 0; net = 0; node = 0; point = 0 }

-- `strtok(NULL, "")`: what is left, if anything is.
with_point : Address → List ℕ → Address
with_point a [] = a
with_point a (c ∷ s) = record a { point = atoi (c ∷ s) }

-- Each step has the address so far; a missing part ends with the result 0.
parse_node : Address → Option (List ℕ × List ℕ) → Bool × Address
parse_node a none = (false, a)
parse_node a (some (text, s)) = (true, with_point (record a { node = atoi text }) s)

parse_net : Address → Option (List ℕ × List ℕ) → Bool × Address
parse_net a none = (false, a)
parse_net a (some (text, s)) = parse_node (record a { net = atoi text }) (strtok b'.' s)

parse_zone : Option (List ℕ × List ℕ) → Bool × Address
parse_zone none = (false, no_address)
parse_zone (some (text, s)) = parse_net (record no_address { zone = atoi text }) (strtok b'/' s)

-- `ftn_address_parse`: whether it succeeded, and the address it leaves.
unfoldable pub address_parse : List ℕ → Bool × Address
unfolding parse_zone parse_net parse_node with_point
address_parse s = parse_zone (strtok b':' s)

-- `a - b` on `unsigned int`, cast to `int`: a word of 32 bits.
abbrev pub difference : ℕ → ℕ → ℕ
difference a b = (2 ^ 32 + a - b) % 2 ^ 32

-- `ftn_address_compare`, as a word of 32 bits in two's complement.
unfoldable pub address_compare : Address → Address → ℕ
address_compare a b =
    if a.zone == b.zone
    then if a.net == b.net
      then if a.node == b.node
        then if a.point == b.point then 0 else difference a.point b.point
        else difference a.node b.node
      else difference a.net b.net
    else difference a.zone b.zone

-- The text of `"%u:%u/%u"`.
abbrev pub node_text : Address → List ℕ
node_text a = decimal a.zone ++ (b':' ∷ (decimal a.net ++ (b'/' ∷ decimal a.node)))

-- The text of `"%u:%u/%u.%u"`.
abbrev pub point_text : Address → List ℕ
point_text a =
    decimal a.zone
    ++ (b':' ∷ (decimal a.net ++ (b'/' ∷ (decimal a.node ++ (b'.' ∷ decimal a.point)))))

unfoldable pub address_text : Address → List ℕ
address_text a = if ltb 0 a.point then point_text a else node_text a

-- `ftn_address_to_string` into a buffer of `size` bytes.
unfoldable pub address_to_string : Address → ℕ → List ℕ
unfolding address_text
address_to_string a size = printed size (address_text a)
