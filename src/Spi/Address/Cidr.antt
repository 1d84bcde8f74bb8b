-- ===== src/Spi/Address/Cidr.antt =====
-- What the CIDR parser of include/dpdk/spi/spi_ip_address.cpp accepts, and the mask that it makes.
use dpdk_cpp.Base.{
  ℕ, zero, suc, ◌+◌, ◌-◌, ◌^◌, ◌≤◌, List, [], ◌∷◌, ◌++◌, Option, none, some, ◌≡◌, refl, arith,
  bit_and, ap, ◌==◌, if◌then◌else◌, Option-cases, inl, inr,
}
use mathlib.Core.Path.{subst}
use dpdk_cpp.Spi.Address.{
  parsed, prefix_mask, split_at_slash, prepend, prefix_length, parse_cidr, parse_ipv4_address,
  masked,
}

pub prefix_length_bound :
    (bits : ℕ) (text : List ℕ) (n : ℕ) → prefix_length bits text ≡ some n → n ≤ bits
unfolding prefix_length
prefix_length_bound bits text n e = ground arith

split_step :
    (c : ℕ) (text : List ℕ) (r : Option (List ℕ × List ℕ)) (before after : List ℕ)
    → ((b a : List ℕ) → r ≡ some (b, a) → text ≡ b ++ 47 ∷ a)
    → (if c == 47 then some ([], text) else prepend c r) ≡ some (before, after)
    → c ∷ text ≡ before ++ 47 ∷ after
split_step c text none before after h e = ground arith
split_step c text (some (b, a)) before after h e = ground (arith, h b a refl)

pub split_at_slash-append :
    (cidr before after : List ℕ)
    → split_at_slash cidr ≡ some (before, after)
    → cidr ≡ before ++ 47 ∷ after
unfolding split_at_slash
split_at_slash-append [] before after e = ground arith
split_at_slash-append (c ∷ text) before after e =
    split_step c text (split_at_slash text) before after (split_at_slash-append text) e

-- The network and the mask that stand for a CIDR text.
pub record IsNetwork (inet_pton4 : List ℕ → Option ℕ) (be_to_cpu_32 : ℕ → ℕ) (cidr : List ℕ)
    (network mask : ℕ) : Type 0 where
  pub ip_part : List ℕ
  pub prefix_part : List ℕ
  pub s_addr : ℕ
  pub bits : ℕ
  pub parts : cidr ≡ ip_part ++ 47 ∷ prefix_part
  pub address : inet_pton4 ip_part ≡ some s_addr
  pub length : prefix_length 32 prefix_part ≡ some bits
  pub bound : bits ≤ 32
  pub mask_eq : mask + 2 ^ (32 - bits) ≡ 2 ^ 32
  pub network_eq : network ≡ bit_and (be_to_cpu_32 s_addr) mask

pow_pos : (n : ℕ) → 1 ≤ 2 ^ n
pow_pos zero = omega arith
pow_pos (suc n) = omega (arith, pow_pos n)

pow_le : (n k : ℕ) → 2 ^ n ≤ 2 ^ (n + k)
pow_le n zero = rw (ap (λ m. 2 ^ m) add_zero) (omega arith)
  where
    add_zero : n + 0 ≡ n
    add_zero = omega arith
pow_le n (suc k) = rw (ap (λ m. 2 ^ m) add_suc) (omega (arith, pow_le n k, pow_pos (n + k)))
  where
    add_suc : n + suc k ≡ suc (n + k)
    add_suc = omega arith

pow_below : (n : ℕ) → n ≤ 32 → 2 ^ (32 - n) ≤ 2 ^ 32
pow_below n h = subst (λ m. 2 ^ (32 - n) ≤ 2 ^ m) sum (pow_le (32 - n) n)
  where
    sum : 32 - n + n ≡ 32
    sum = omega arith

pub prefix_mask_lem : (n : ℕ) → n ≤ 32 → prefix_mask n + 2 ^ (32 - n) ≡ 2 ^ 32
unfolding prefix_mask
prefix_mask_lem zero h = refl
prefix_mask_lem (suc n) h = ground (arith, pow_below (suc n) h, pow_pos (32 - suc n))

module _ (inet_pton4 : List ℕ → Option ℕ) (be_to_cpu_32 : ℕ → ℕ) where
  -- When a CIDR text is accepted, it is an address, a '/' and a number of at most 32 bits; the mask
  -- has that many leading ones, and the network is the address under the mask.
  pub parse_cidr-IsNetwork :
      (cidr : List ℕ) (network mask : ℕ)
      → parse_cidr inet_pton4 be_to_cpu_32 cidr ≡ parsed (network, mask)
      → IsNetwork inet_pton4 be_to_cpu_32 cidr network mask
  unfolding parse_cidr parse_ipv4_address masked
  parse_cidr-IsNetwork cidr network mask e = elim (Option-cases (split_at_slash cidr)) [
    | inl none_e ↦ absurd (ground arith)
    | inr (parts, parts_e) ↦ elim (Option-cases (inet_pton4 parts.0)) [
      | inl none_e ↦ absurd (ground arith)
      | inr (s_addr, address_e) ↦ elim (Option-cases (prefix_length 32 parts.1)) [
        | inl none_e ↦ absurd (ground arith)
        | inr (bits, bits_e) ↦ record {
          ip_part = parts.0;
          prefix_part = parts.1;
          s_addr = s_addr;
          bits = bits;
          parts = split_at_slash-append cidr parts.0 parts.1 parts_e;
          address = address_e;
          length = bits_e;
          bound = prefix_length_bound 32 parts.1 bits bits_e;
          mask_eq =
              ground (arith, prefix_mask_lem bits (prefix_length_bound 32 parts.1 bits bits_e));
          network_eq = ground arith;
        }
      ]
    ]
  ]
