-- ===== src/Parser/Http.antt =====
-- The scan of an HTTP request for its host in include/dpdk/spi/spi_packet_parser.cpp. A hostname is
-- the offset and the length of its bytes.
pub mod Values
pub mod Host
use dpdk_cpp.Base.{
  ℕ, zero, suc, ◌+◌, ◌-◌, ◌%◌, ◌^◌, ◌<◌, Bool, true, false, List, [], ◌∷◌, Option, none, some, ltb,
  ◌==◌, if◌then◌else◌, length, take,
}
use dpdk_cpp.Parser.Reads.{Checked, ok, out_of_bounds, ◌>>=◌, read, is_text_at}

-- The methods that `IsHttpMethodValid` compares with, four bytes each: GET, POST, HEAD, PUT, DELE,
-- PATC and OPTI.
abbrev pub methods : List (List ℕ)
methods =
    (71 ∷ 69 ∷ 84 ∷ 32 ∷ [])
    ∷ (80 ∷ 79 ∷ 83 ∷ 84 ∷ [])
    ∷ (72 ∷ 69 ∷ 65 ∷ 68 ∷ [])
    ∷ (80 ∷ 85 ∷ 84 ∷ 32 ∷ [])
    ∷ (68 ∷ 69 ∷ 76 ∷ 69 ∷ [])
    ∷ (80 ∷ 65 ∷ 84 ∷ 67 ∷ [])
    ∷ (79 ∷ 80 ∷ 84 ∷ 73 ∷ [])
    ∷ []

-- The chain of `||`: the next comparison is made only if the one before it fails.
unfoldable pub is_any_at : List ℕ → ℕ → List (List ℕ) → Checked Bool
unfolding is_text_at
is_any_at bytes offset [] = ok false
is_any_at bytes offset (text ∷ texts) = do
  found ← is_text_at bytes offset text
  let rest = is_any_at bytes offset texts
  if found then ok true else rest

unfoldable pub is_http_method_valid : List ℕ → Checked Bool
unfolding is_any_at
is_http_method_valid bytes = is_any_at bytes 0 methods

abbrev pub host_pattern : List ℕ
host_pattern = 13 ∷ 10 ∷ 72 ∷ 111 ∷ 115 ∷ 116 ∷ 58 ∷ []

-- The first loop of `FindHostHeaderValue` over the value of a header, for at most so many rounds: the
-- offset after the spaces.
unfoldable pub skip_spaces : List ℕ → ℕ → ℕ → Checked ℕ
unfolding read
skip_spaces bytes zero off = ok off
skip_spaces bytes (suc rounds) off = elim (ltb off (length bytes)) [
  | false ↦ ok off
  | true ↦ do
    b ← read bytes off
    let rest = skip_spaces bytes rounds (off + 1)
    elim (b == 32) [ true ↦ rest | false ↦ ok off ]
]

-- The second one: the offset of the carriage return, or the end.
unfoldable pub find_return : List ℕ → ℕ → ℕ → Checked ℕ
unfolding read
find_return bytes zero off = ok off
find_return bytes (suc rounds) off = elim (ltb off (length bytes)) [
  | false ↦ ok off
  | true ↦ do
    b ← read bytes off
    let rest = find_return bytes rounds (off + 1)
    elim (b == 13) [ true ↦ ok off | false ↦ rest ]
]

-- The body of the outer loop of `FindHostHeaderValue` at `i`; the length of the host has 16 bits.
unfoldable pub host_at : List ℕ → ℕ → Checked (Option (ℕ × ℕ))
unfolding is_text_at skip_spaces find_return
host_at bytes i = do
  found ← is_text_at bytes i host_pattern
  elim found [
    | false ↦ ok none
    | true ↦ do
      host_start ← skip_spaces bytes (length bytes) (i + 7)
      host_off ← find_return bytes (length bytes) host_start
      ok (
          if ltb host_start host_off
          then some (host_start, (host_off - host_start) % 2 ^ 16)
          else none)
  ]

abbrev pub or_next : Option (ℕ × ℕ) → Checked (Option (ℕ × ℕ)) → Checked (Option (ℕ × ℕ))
or_next none rest = rest
or_next (some found) rest = ok (some found)

-- The outer loop, for at most so many rounds.
unfoldable pub host_from : List ℕ → ℕ → ℕ → Checked (Option (ℕ × ℕ))
unfolding host_at
host_from bytes zero i = ok none
host_from bytes (suc rounds) i = elim (ltb (i + 7) (length bytes)) [
  | false ↦ ok none
  | true ↦ do found ← host_at bytes i; or_next found (host_from bytes rounds (i + 1))
]

-- `FindHostHeaderValue`: every loop goes on by a byte a round, so that as many rounds as there are
-- bytes are enough.
unfoldable pub find_host_header_value : List ℕ → Checked (Option (ℕ × ℕ))
unfolding host_from
find_host_header_value bytes = host_from bytes (length bytes) 4

unfoldable pub host_of : List ℕ → Checked (Option (ℕ × ℕ))
unfolding is_http_method_valid find_host_header_value
host_of bytes = do
  valid ← is_http_method_valid bytes
  elim valid [ true ↦ find_host_header_value bytes | false ↦ ok none ]

-- `ExtractHttpHost` on a span: at most 256 bytes of the payload are looked at.
unfoldable pub extract_http_host : List ℕ → Checked (Option (ℕ × ℕ))
unfolding host_of
extract_http_host payload = elim (ltb (length (take 256 payload)) 4) [
  | true ↦ ok none
  | false ↦ host_of (take 256 payload)
]
