-- ===== src/Parser/Tls.antt =====
-- The scan of a TLS ClientHello for its server name in include/dpdk/spi/spi_packet_parser.cpp. A
-- hostname is the offset and the length of its bytes.
pub mod Safe
use dpdk_cpp.Base.{
  ℕ, zero, suc, ◌+◌, ◌*◌, ◌≤◌, Bool, true, false, ◌&&◌, ◌||◌, not, List, [], ◌∷◌, Option, none,
  some, ltb, leb, ◌==◌, if◌then◌else◌, length, take, min,
}
use dpdk_cpp.Parser.Reads.{Checked, ok, out_of_bounds, ◌>>=◌, read, read_uint16_be}

-- `data[1] < 3 || (data[1] == 3 && data[2] < 1)`.
unfoldable pub version_too_old : List ℕ → Checked Bool
unfolding read
version_too_old bytes = do
  major ← read bytes 1
  elim (ltb major 3) [
    | true ↦ ok true
    | false ↦ elim (major == 3) [
      | true ↦ do minor ← read bytes 2; ok (ltb minor 1)
      | false ↦ ok false
    ]
  ]

unfoldable pub validate_tls_record_header : List ℕ → Checked Bool
unfolding read version_too_old
validate_tls_record_header bytes = do
  content_type ← read bytes 0
  elim (content_type == 22) [
    | false ↦ ok false
    | true ↦ do
      old ← version_too_old bytes
      elim old [ true ↦ ok false | false ↦ do handshake ← read bytes 5; ok (handshake == 1) ]
  ]

-- The rest of a walk if so many bytes are there, its end without a result otherwise.
abbrev pub if_within {ℓ} : {A : Type ℓ} → List ℕ → ℕ → Checked (Option A) → Checked (Option A)
if_within bytes end rest = elim (ltb (length bytes) end) [ true ↦ ok none | false ↦ rest ]

unfoldable pub walk_compression : List ℕ → ℕ → Checked (Option ℕ)
unfolding read
walk_compression bytes off = if_within bytes (off + 1) (do
  comp_len ← read bytes off
  let after = off + (1 + comp_len)
  if_within bytes (after + 2) (ok (some after)))

unfoldable pub walk_ciphers : List ℕ → ℕ → Checked (Option ℕ)
unfolding read_uint16_be walk_compression
walk_ciphers bytes off =
    if_within bytes (off + 2)
      (do cipher_len ← read_uint16_be bytes off; walk_compression bytes (off + (2 + cipher_len)))

-- `WalkClientHelloPreamble`: the fixed fields take 43 bytes.
unfoldable pub walk_client_hello_preamble : List ℕ → Checked (Option ℕ)
unfolding read walk_ciphers
walk_client_hello_preamble bytes = elim (leb (length bytes) 43) [
  | true ↦ ok none
  | false ↦ do session_id_len ← read bytes 43; walk_ciphers bytes (43 + (1 + session_id_len))
]

-- The name in an extension of this type that starts at `off`, if it is a server name within bounds.
unfoldable pub sni_name : List ℕ → ℕ → ℕ → ℕ → Checked (Option (ℕ × ℕ))
unfolding read_uint16_be
sni_name bytes ext_end off ext_type = elim (ext_type == 0 && leb (off + 9) ext_end) [
  | false ↦ ok none
  | true ↦ do
    name_len ← read_uint16_be bytes (off + 7)
    ok (
        if leb (off + 9 + name_len) ext_end && ltb 0 name_len
        then some (off + 9, name_len)
        else none)
]

abbrev pub or_else : Option (ℕ × ℕ) → Checked (Option (ℕ × ℕ)) → Checked (Option (ℕ × ℕ))
or_else none rest = rest
or_else (some found) rest = ok (some found)

-- The loop of `FindSniExtension` for at most so many rounds.
unfoldable pub find_from : List ℕ → ℕ → ℕ → ℕ → Checked (Option (ℕ × ℕ))
unfolding read_uint16_be sni_name
find_from bytes ext_end zero off = ok none
find_from bytes ext_end (suc rounds) off = elim (leb (off + 4) ext_end) [
  | false ↦ ok none
  | true ↦ do
    ext_type ← read_uint16_be bytes off
    ext_data_len ← read_uint16_be bytes (off + 2)
    found ← sni_name bytes ext_end off ext_type
    or_else found (find_from bytes ext_end rounds (off + (4 + ext_data_len)))
]

-- `FindSniExtension`. Each round goes on by four bytes at least, so that there are fewer rounds than
-- bytes.
unfoldable pub find_sni_extension : List ℕ → ℕ → Checked (Option (ℕ × ℕ))
unfolding read_uint16_be find_from
find_sni_extension bytes ext_offset = do
  ext_len ← read_uint16_be bytes ext_offset
  let ext_end = min (ext_offset + 2 + ext_len) (length bytes)
  find_from bytes ext_end (length bytes) (ext_offset + 2)

abbrev pub and_then : List ℕ → Option ℕ → Checked (Option (ℕ × ℕ))
and_then bytes none = ok none
and_then bytes (some ext_offset) = find_sni_extension bytes ext_offset

unfoldable pub extract_from : List ℕ → Checked (Option (ℕ × ℕ))
unfolding validate_tls_record_header walk_client_hello_preamble find_sni_extension
extract_from bytes = do
  valid ← validate_tls_record_header bytes
  elim valid [
    | false ↦ ok none
    | true ↦ do ext_offset ← walk_client_hello_preamble bytes; and_then bytes ext_offset
  ]

-- `ExtractTlsSni` on a span: at most 512 bytes of the payload are looked at.
unfoldable pub extract_tls_sni : List ℕ → Checked (Option (ℕ × ℕ))
unfolding extract_from
extract_tls_sni payload = elim (ltb (length (take 512 payload)) 5) [
  | true ↦ ok none
  | false ↦ extract_from (take 512 payload)
]
