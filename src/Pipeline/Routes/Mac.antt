-- ===== src/Pipeline/Routes/Mac.antt =====
-- MAC addresses in the configuration of include/dpdk/spi/spi_pipeline.cpp.
use dpdk_cpp.Base.{
  ℕ, zero, suc, ◌+◌, ◌*◌, ◌/◌, ◌%◌, ◌<◌, Bool, true, false, ◌&&◌, List, [], ◌∷◌, ltb, ◌==◌,
  if◌then◌else◌, ◌≡◌, refl, ap, ◌∙◌, arith, bit_or, ==_iff,
}
use native.Mathlib.Decide.{ℕ_discrete}
use dpdk_cpp.Parser.Reads.{ok, read}
use dpdk_cpp.Pipeline.Routes.{hex_value, parse_mac_bytes, parse_mac_address}

-- A digit of a MAC address in lower case or upper case.
abbrev pub hex_digit : Bool → ℕ → ℕ
hex_digit upper n = if ltb n 10 then n + 48 else if upper then n + 55 else n + 87

hex_value-hex_digit : (upper : Bool) (n : ℕ) → n < 16 → hex_value (hex_digit upper n) ≡ n
unfolding hex_value
hex_value-hex_digit true n h = ground arith
hex_value-hex_digit false n h = ground arith

abbrev all_below : ℕ → (ℕ → Bool) → Bool
all_below zero p = true
all_below (suc n) p = p n && all_below n p

all_below-lt : (n : ℕ) (p : ℕ → Bool) → all_below n p ≡ true → (i : ℕ) → i < n → p i ≡ true
all_below-lt zero p e i h = absurd (omega arith)
all_below-lt (suc n) p e i h = elim (ℕ_discrete i n) [
  | yes same ↦ ap p same ∙ both.0
  | no apart ↦ all_below-lt n p both.1 i (ground arith)
]
  where
    both : (p n ≡ true) × (all_below n p ≡ true)
    both = ground arith

abbrev nibbles_add : ℕ → ℕ → Bool
nibbles_add high low = bit_or (high * 16) low % 256 == high * 16 + low

nibbles : (high low : ℕ) → high < 16 → low < 16 → bit_or (high * 16) low % 256 ≡ high * 16 + low
nibbles high low h l = (==_iff (bit_or (high * 16) low % 256) (high * 16 + low)).0 (
    all_below-lt 16 (nibbles_add high)
      (all_below-lt 16 (λ n. all_below 16 (nibbles_add n)) refl high h) low l)

-- The byte that two digits are read as.
abbrev read_byte : Bool → ℕ → ℕ
read_byte upper b =
    bit_or (hex_value (hex_digit upper (b / 16)) * 16) (hex_value (hex_digit upper (b % 16))) % 256

read_byte_eq : (upper : Bool) (b : ℕ) → b < 256 → read_byte upper b ≡ b
read_byte_eq upper b h =
    rw
      (
        hex_value-hex_digit upper (b / 16) (omega arith),
        hex_value-hex_digit upper (b % 16) (omega arith),
      )
      (nibbles (b / 16) (b % 16) (omega arith) (omega arith) ∙ omega arith)

-- Six bytes as text, with colons between them.
abbrev pub mac_text : Bool → ℕ → ℕ → ℕ → ℕ → ℕ → ℕ → List ℕ
mac_text upper a b c d e f =
    hex_digit upper (a / 16)
    ∷ hex_digit upper (a % 16)
    ∷ 58
    ∷ hex_digit upper (b / 16)
    ∷ hex_digit upper (b % 16)
    ∷ 58
    ∷ hex_digit upper (c / 16)
    ∷ hex_digit upper (c % 16)
    ∷ 58
    ∷ hex_digit upper (d / 16)
    ∷ hex_digit upper (d % 16)
    ∷ 58
    ∷ hex_digit upper (e / 16)
    ∷ hex_digit upper (e % 16)
    ∷ 58
    ∷ hex_digit upper (f / 16)
    ∷ hex_digit upper (f % 16)
    ∷ []

-- Six bytes written in hexadecimal, all in lower case or all in upper case, with colons between them
-- are parsed into those bytes.
pub parse_mac_address-mac_text :
    (upper : Bool) (a b c d e f : ℕ)
    → a < 256
    → b < 256
    → c < 256
    → d < 256
    → e < 256
    → f < 256
    → parse_mac_address (mac_text upper a b c d e f) ≡ ok (a ∷ b ∷ c ∷ d ∷ e ∷ f ∷ [])
unfolding parse_mac_address parse_mac_bytes read
parse_mac_address-mac_text upper a b c d e f ha hb hc hd he hf = λ i. ok (
    read_byte_eq upper a ha i
    ∷ read_byte_eq upper b hb i
    ∷ read_byte_eq upper c hc i
    ∷ read_byte_eq upper d hd i
    ∷ read_byte_eq upper e he i
    ∷ read_byte_eq upper f hf i
    ∷ [])
