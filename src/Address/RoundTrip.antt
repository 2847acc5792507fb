-- ===== src/Address/RoundTrip.antt =====
-- Addresses printed and parsed again: `ftn_address_to_string` and `ftn_address_parse` of src/ftn.c.
use lib_ftn.Common.{ℕ, ◌-◌, ◌^◌, ◌<◌, arith, ◌≡◌, refl, sym, ap, ◌∙◌, Bool, true, false, some}
use lib_ftn.Common.{List, [], ◌∷◌, ◌++◌, length, take_all, ltb, Bool-cases, inl, inr}
use lib_ftn.Common.Text.{is_digit, decimal}
use lib_ftn.Common.Text.Words.{decimal_nonempty}
use lib_ftn.Common.Text.Decimal.{decimal-StartsDigit, decimal-digits}
use lib_ftn.Common.Text.Long.{
  strtok, atoi, strtok-StartsDigit, break_at-word, break_at-last, digits_differ, atoi_whole,
}
use lib_ftn.Address.{Address, with_point, parse_node, parse_net, parse_zone, address_parse}
use lib_ftn.Address.{node_text, point_text, address_text, address_to_string}
use mathlib.Core.List.{append-nil}

-- Every field is an `unsigned int`.
pub record IsAddress (a : Address) : Type 0 where
  pub zone_fits : a.zone < 2 ^ 32
  pub net_fits : a.net < 2 ^ 32
  pub node_fits : a.node < 2 ^ 32
  pub point_fits : a.point < 2 ^ 32

-- A number with the delimiter behind it is the next token.
strtok-decimal :
    (x n : ℕ) (s : List ℕ)
    → is_digit x ≡ false
    → strtok x (decimal n ++ (x ∷ s)) ≡ some (decimal n, s)
strtok-decimal x n s h =
    strtok-StartsDigit x (decimal n ++ (x ∷ s)) h (decimal-StartsDigit n (x ∷ s))
    ∙ ap (λ r. some r)
        (break_at-word x (decimal n) s (digits_differ x (decimal n) h (decimal-digits n)))

strtok-decimal_last : (x n : ℕ) → is_digit x ≡ false → strtok x (decimal n) ≡ some (decimal n, [])
strtok-decimal_last x n h =
    strtok-StartsDigit x (decimal n) h (rw append-nil at (decimal-StartsDigit n []))
    ∙ ap (λ r. some r)
        (break_at-last x (decimal n) (digits_differ x (decimal n) h (decimal-digits n)))

with_point-decimal :
    (a : Address) (n : ℕ) → n < 2 ^ 32 → with_point a (decimal n) ≡ record a { point = n }
unfolding with_point
with_point-decimal a n h = by_text (decimal n) (decimal_nonempty n) (atoi_whole n h)
  where
    by_text : (s : List ℕ) → 0 < length s → atoi s ≡ n → with_point a s ≡ record a { point = n }
    by_text [] full e = absurd (omega arith)
    by_text (c ∷ s) full e = rw e

parse_node_text :
    (a : Address) → IsAddress a → a.point ≡ 0 → address_parse (node_text a) ≡ (true, a)
unfolding address_parse parse_zone parse_net parse_node with_point
parse_node_text a h e =
    rw
      (
        strtok-decimal b':' a.zone (decimal a.net ++ (b'/' ∷ decimal a.node)) refl,
        strtok-decimal b'/' a.net (decimal a.node) refl,
        strtok-decimal_last b'.' a.node refl,
        atoi_whole a.zone h.zone_fits,
        atoi_whole a.net h.net_fits,
        atoi_whole a.node h.node_fits,
      )
      (ap {B = Bool × Address} (λ (p : ℕ). (true, record a { point = p })) (sym e))

parse_point_text : (a : Address) → IsAddress a → address_parse (point_text a) ≡ (true, a)
unfolding address_parse parse_zone parse_net parse_node
parse_point_text a h =
    let s2 = decimal a.node ++ (b'.' ∷ decimal a.point) in
    rw (
      strtok-decimal b':' a.zone (decimal a.net ++ (b'/' ∷ s2)) refl,
      strtok-decimal b'/' a.net s2 refl,
      strtok-decimal b'.' a.node (decimal a.point) refl,
      atoi_whole a.zone h.zone_fits,
      atoi_whole a.net h.net_fits,
      atoi_whole a.node h.node_fits,
      with_point-decimal (record a { point = 0 }) a.point h.point_fits,
    )

-- An address that is printed into a buffer with room for its text is parsed back, with or without a
-- point.
pub address_parse-address_to_string :
    (a : Address) (size : ℕ)
    → IsAddress a
    → length (address_text a) < size
    → address_parse (address_to_string a size) ≡ (true, a)
unfolding address_to_string address_text
address_parse-address_to_string a size h room =
    rw (take_all (size - 1) (address_text a) (omega (arith, room)))
      (elim (Bool-cases (ltb 0 a.point)) [
        | inl some_point ↦ rw some_point (parse_point_text a h)
        | inr no_point ↦ rw no_point (parse_node_text a h (ground arith))
      ])
