-- ===== src/Spi/Address.antt =====
-- include/dpdk/spi/spi_ip_address.hpp and .cpp. `inet_pton` and the byte order of the machine are
-- parameters; an error string is a constructor of `AddressError`, and strings are their bytes.
pub mod Cidr
use dpdk_cpp.Base.{
  ℕ, zero, suc, ◌+◌, ◌-◌, ◌*◌, ◌^◌, Bool, true, false, ◌&&◌, ◌||◌, not, List, [], ◌∷◌, Option, none,
  some, ltb, leb, ◌==◌, if◌then◌else◌, bit_and,
}

pub data AddressError : Type 0 where
  invalid_address missing_slash bad_prefix_length : AddressError

pub data Parsed (A : Type 0) : Type 0 where
  parsed : A → Parsed A
  unexpected : AddressError → Parsed A

unfoldable pub prefix_mask : ℕ → ℕ
prefix_mask prefix_length =
    if prefix_length == 0
    then 0
    else if leb 32 prefix_length
    then 4294967295
    else 4294967295 - (2 ^ (32 - prefix_length) - 1)

abbrev pub prepend : ℕ → Option (List ℕ × List ℕ) → Option (List ℕ × List ℕ)
prepend c none = none
prepend c (some (before, after)) = some (c ∷ before, after)

-- The text before and after the first '/', if there is one.
unfoldable pub split_at_slash : List ℕ → Option (List ℕ × List ℕ)
split_at_slash [] = none
split_at_slash (c ∷ text) =
    let rest = split_at_slash text in if c == 47 then some ([], text) else prepend c rest

abbrev pub is_digit : ℕ → Bool
is_digit c = leb 48 c && leb c 57

-- The value of the digits that a text starts with, after the value of those before it, and whether
-- the text is nothing else.
unfoldable pub decimal : ℕ → List ℕ → ℕ × Bool
decimal acc [] = (acc, true)
decimal acc (c ∷ text) =
    let rest = decimal (acc * 10 + (c - 48)) text in if is_digit c then rest else (acc, false)

-- `std::from_chars` into a `std::uint16_t` when the whole text has to be the number.
unfoldable pub whole_uint16 : List ℕ → Option ℕ
unfolding decimal
whole_uint16 [] = none
whole_uint16 (c ∷ text) = if read.1 && ltb read.0 65536 then some read.0 else none
  where
    read : ℕ × Bool
    read = decimal 0 (c ∷ text)

-- A prefix length of at most so many bits.
unfoldable pub prefix_length : ℕ → List ℕ → Option ℕ
unfolding whole_uint16
prefix_length bits text = elim (whole_uint16 text) [
  | none ↦ none
  | some n ↦ if ltb bits n then none else some n
]

module _ (inet_pton4 : List ℕ → Option ℕ) (be_to_cpu_32 : ℕ → ℕ) where
  unfoldable pub parse_ipv4_address : List ℕ → Parsed ℕ
  parse_ipv4_address address = elim (inet_pton4 address) [
    | none ↦ unexpected invalid_address
    | some s_addr ↦ parsed (be_to_cpu_32 s_addr)
  ]

  masked : Parsed ℕ → Option ℕ → Parsed (ℕ × ℕ)
  unfolding prefix_mask
  masked (unexpected e) length = unexpected e
  masked (parsed address) none = unexpected bad_prefix_length
  masked (parsed address) (some length) =
      parsed (bit_and address (prefix_mask length), prefix_mask length)

  unfoldable pub parse_cidr : List ℕ → Parsed (ℕ × ℕ)
  unfolding split_at_slash parse_ipv4_address prefix_length masked
  parse_cidr cidr = elim (split_at_slash cidr) [
    | none ↦ unexpected missing_slash
    | some (ip_part, prefix_part) ↦
        masked (parse_ipv4_address ip_part) (prefix_length 32 prefix_part)
  ]

module _ (inet_pton6 : List ℕ → Option (List ℕ)) where
  unfoldable pub parse_ipv6_address : List ℕ → Parsed (List ℕ)
  parse_ipv6_address address = elim (inet_pton6 address) [
    | none ↦ unexpected invalid_address
    | some bytes ↦ parsed bytes
  ]

  with_length : Parsed (List ℕ) → Option ℕ → Parsed (List ℕ × ℕ)
  with_length (unexpected e) length = unexpected e
  with_length (parsed bytes) none = unexpected bad_prefix_length
  with_length (parsed bytes) (some length) = parsed (bytes, length)

  unfoldable pub parse_ipv6_cidr : List ℕ → Parsed (List ℕ × ℕ)
  unfolding split_at_slash parse_ipv6_address prefix_length with_length
  parse_ipv6_cidr cidr = elim (split_at_slash cidr) [
    | none ↦ with_length (parse_ipv6_address cidr) (some 128)
    | some (ip_part, prefix_part) ↦
        with_length (parse_ipv6_address ip_part) (prefix_length 128 prefix_part)
  ]
