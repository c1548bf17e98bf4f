-- ===== src/Tests/Net.antt =====
-- A concrete net package: four networks are known by name, and an address is printed in binary.
use Prim.Native.Char.{char, code}
use Prim.Native.String.{String, [], ◌∷◌}
use native.Mathlib.Nat.{pow-suc}
use novita_box.Common.{
  ℕ, zero, suc, ◌+◌, ◌-◌, ◌*◌, ◌/◌, ◌%◌, ◌^◌, ◌<◌, ◌≡◌, refl, Bool-cases, Option-cases, inl, inr,
  Option, none, some, arith, str_eq, ◌==◌, if◌then◌else◌,
}
use novita_box.Network.Net.{IpNet, NetLib, NetLaws}

abbrev pub ipv4_net : ℕ → ℕ → IpNet
ipv4_net base ones = record { ip4 = some base; ones = ones; bits = 32; mask_len = 4 }

pub print_bits : ℕ → ℕ → String
print_bits zero x = []
print_bits (suc n) x = (if x % 2 == 0 then char 48 tt else char 49 tt) ∷ print_bits n (x / 2)

abbrev bits_value : String → ℕ
bits_value [] = 0
bits_value (c ∷ s) = (code c - 48) + 2 * bits_value s

bits_value-print_bits : (n x : ℕ) → x < 2 ^ n → bits_value (print_bits n x) ≡ x
unfolding print_bits
bits_value-print_bits zero x h = omega arith
bits_value-print_bits (suc n) x h = elim (Bool-cases (x % 2 == 0)) [
  | inl even ↦ rw even (
      let rest = bits_value-print_bits n (x / 2) (omega (arith, pow-suc 2 n)) in
      ground (arith, rest))
  | inr odd ↦ rw odd (
      let rest = bits_value-print_bits n (x / 2) (omega (arith, pow-suc 2 n)) in
      ground (arith, rest))
]

abbrev base_of : Option ℕ → ℕ
base_of none = 0
base_of (some b) = b

-- 10.11.0.0/16 and 10.12.0.0/16, the networks of the default configuration, 10.13.0.0/29, and a
-- network of IPv4 addresses that is written as one of IPv6.
abbrev parse : String → Option IpNet
parse cidr =
    if str_eq cidr "10.11.0.0/16"
    then some (ipv4_net 168493056 16)
    else if str_eq cidr "10.12.0.0/16"
    then some (ipv4_net 168558592 16)
    else if str_eq cidr "10.13.0.0/29"
    then some (ipv4_net 168624128 29)
    else if str_eq cidr "::ffff:10.11.0.0/112"
    then some (record { ip4 = some 168493056; ones = 112; bits = 128; mask_len = 16 })
    else none

abbrev pub binary_net : NetLib
binary_net = record {
  parse_cidr = parse;
  parse_ip4 = λ s. some (bits_value s);
  ip_string = λ x. print_bits 32 x;
  contains_ip = λ n x. x / 2 ^ (32 - n.ones) == base_of n.ip4 / 2 ^ (32 - n.ones);
}

parse-base : (cidr : String) (n : IpNet) → parse cidr ≡ some n → (b : ℕ) × (n.ip4 ≡ some b)
parse-base cidr n p = elim (Option-cases n.ip4) [
  | inl none_left ↦ absurd (ground arith)
  | inr found ↦ found
]

pub binary_net-NetLaws : NetLaws binary_net
binary_net-NetLaws = record {
  ipv4 = λ cidr n b p w i. ground arith;
  mask = λ cidr n p w. parse-base cidr n p;
  contains_block = λ cidr n b x p w i e. ground arith;
  parse_print = λ x h. rw (bits_value-print_bits 32 x h) refl;
}
