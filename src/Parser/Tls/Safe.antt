-- ===== src/Parser/Tls/Safe.antt =====
-- The bounds of the ClientHello scan in include/dpdk/spi/spi_packet_parser.cpp.
use dpdk_cpp.Base.{
  ℕ, zero, suc, ◌+◌, ◌≤◌, ◌<◌, Bool, true, false, ◌&&◌, List, Option, none, some, ltb, leb, ◌==◌,
  if◌then◌else◌, length, take, length-take, min, ◌≡◌, refl, arith,
}
use dpdk_cpp.Parser.Reads.{
  Checked, ok, read, read_uint16_be, Returns, Returns-bind, bind_cong, Any, read-Returns,
  read_uint16_be-Returns, Returns-map, Returns-elim,
}
use dpdk_cpp.Parser.Tls.{
  version_too_old, validate_tls_record_header, if_within, walk_compression, walk_ciphers,
  walk_client_hello_preamble, sni_name, or_else, find_from, find_sni_extension, and_then,
  extract_from, extract_tls_sni,
}

-- The place and the length of a name that is not empty lies before a bound.
abbrev pub IsInside : ℕ → Option (ℕ × ℕ) → Type 0
IsInside bound none = Unit
IsInside bound (some (offset, size)) = (0 < size) × (offset + size ≤ bound)

version_too_old-Returns : (bytes : List ℕ) → 5 < length bytes → Returns Any (version_too_old bytes)
unfolding version_too_old
version_too_old-Returns bytes h =
    Returns-bind _ Any (read bytes 1) _ (read-Returns bytes 1 (omega arith)) λ major _.
      Returns-elim Any (ltb major 3) _ _ (λ e. tt)
        λ e.
          Returns-elim Any (major == 3) _ _
            (λ e'.
              Returns-bind _ Any (read bytes 2) _ (read-Returns bytes 2 (omega arith))
                λ minor _. tt)
            λ e'. tt

validate_tls_record_header-Returns :
    (bytes : List ℕ) → 5 < length bytes → Returns Any (validate_tls_record_header bytes)
unfolding validate_tls_record_header
validate_tls_record_header-Returns bytes h =
    Returns-bind _ Any (read bytes 0) _ (read-Returns bytes 0 (omega arith)) λ content_type _.
      Returns-elim Any (content_type == 22) _ _
        (λ e.
          Returns-bind _ Any (version_too_old bytes) _ (version_too_old-Returns bytes h) λ old _.
            Returns-elim Any old _ _ (λ e'. tt)
              λ e'. Returns-bind _ Any (read bytes 5) _ (read-Returns bytes 5 h) λ _ _. tt)
        λ e. tt

-- An offset at which two bytes can be read.
abbrev pub HasTwo : List ℕ → Option ℕ → Type 0
HasTwo bytes none = Unit
HasTwo bytes (some off) = off + 2 ≤ length bytes

if_within-Returns :
    (P : Option ℕ → Type 0) (bytes : List ℕ) (end : ℕ) (rest : Checked (Option ℕ))
    → P none
    → (end ≤ length bytes → Returns P rest)
    → Returns P (if_within bytes end rest)
if_within-Returns P bytes end rest h k =
    Returns-elim P (ltb (length bytes) end) _ _ (λ e. h) λ e. k (ground arith)

walk_compression-Returns :
    (bytes : List ℕ) (off : ℕ) → Returns (HasTwo bytes) (walk_compression bytes off)
unfolding walk_compression
walk_compression-Returns bytes off = if_within-Returns (HasTwo bytes) bytes (off + 1) _ tt λ h.
    Returns-bind _ (HasTwo bytes) (read bytes off) _ (read-Returns bytes off (omega arith))
      λ comp_len _. if_within-Returns (HasTwo bytes) bytes _ _ tt λ h'. h'

walk_ciphers-Returns : (bytes : List ℕ) (off : ℕ) → Returns (HasTwo bytes) (walk_ciphers bytes off)
unfolding walk_ciphers
walk_ciphers-Returns bytes off = if_within-Returns (HasTwo bytes) bytes (off + 2) _ tt λ h.
    Returns-bind Any (HasTwo bytes) (read_uint16_be bytes off) _
      (read_uint16_be-Returns bytes off h)
      λ cipher_len _. walk_compression-Returns bytes (off + (2 + cipher_len))

pub walk_client_hello_preamble-Returns :
    (bytes : List ℕ) → Returns (HasTwo bytes) (walk_client_hello_preamble bytes)
unfolding walk_client_hello_preamble
walk_client_hello_preamble-Returns bytes =
    Returns-elim (HasTwo bytes) (leb (length bytes) 43) _ _ (λ e. tt)
      λ e.
        Returns-bind _ (HasTwo bytes) (read bytes 43) _ (read-Returns bytes 43 (ground arith))
          λ session_id_len _. walk_ciphers-Returns bytes (43 + (1 + session_id_len))

sni_name-Returns :
    (bytes : List ℕ) (ext_end off ext_type : ℕ)
    → ext_end ≤ length bytes
    → Returns (IsInside ext_end) (sni_name bytes ext_end off ext_type)
unfolding sni_name
sni_name-Returns bytes ext_end off ext_type h =
    Returns-elim (IsInside ext_end) (ext_type == 0 && leb (off + 9) ext_end) _ _
      (λ e.
        Returns-bind Any (IsInside ext_end) (read_uint16_be bytes (off + 7)) _
          (read_uint16_be-Returns bytes (off + 7) (ground arith))
          λ name_len _. name name_len (leb (off + 9 + name_len) ext_end && ltb 0 name_len) refl)
      λ e. tt
  where
    name :
        (name_len : ℕ) (fits : Bool)
        → (leb (off + 9 + name_len) ext_end && ltb 0 name_len) ≡ fits
        → IsInside ext_end (if fits then some (off + 9, name_len) else none)
    name name_len true e = (ground arith, ground arith)
    name name_len false e = tt

or_else-Returns :
    (bound : ℕ) (found : Option (ℕ × ℕ)) (rest : Checked (Option (ℕ × ℕ)))
    → IsInside bound found
    → Returns (IsInside bound) rest
    → Returns (IsInside bound) (or_else found rest)
or_else-Returns bound none rest h k = k
or_else-Returns bound (some found) rest h k = h

pub find_from-Returns :
    (bytes : List ℕ) (ext_end rounds off : ℕ)
    → ext_end ≤ length bytes
    → Returns (IsInside ext_end) (find_from bytes ext_end rounds off)
unfolding find_from
find_from-Returns bytes ext_end zero off h = tt
find_from-Returns bytes ext_end (suc rounds) off h =
    Returns-elim (IsInside ext_end) (leb (off + 4) ext_end) _ _
      (λ e.
        Returns-bind Any (IsInside ext_end) (read_uint16_be bytes off) _
          (read_uint16_be-Returns bytes off (ground arith))
          λ ext_type _.
            Returns-bind Any (IsInside ext_end) (read_uint16_be bytes (off + 2)) _
              (read_uint16_be-Returns bytes (off + 2) (ground arith))
              λ ext_data_len _.
                Returns-bind (IsInside ext_end) (IsInside ext_end)
                  (sni_name bytes ext_end off ext_type) _
                  (sni_name-Returns bytes ext_end off ext_type h)
                  λ found k.
                    or_else-Returns ext_end found _ k
                      (find_from-Returns bytes ext_end rounds (off + (4 + ext_data_len)) h))
      λ e. tt

IsInside-weaken : (a b : ℕ) → a ≤ b → (found : Option (ℕ × ℕ)) → IsInside a found → IsInside b found
IsInside-weaken a b h none k = tt
IsInside-weaken a b h (some (offset, size)) (p, q) = (p, omega arith)

find_sni_extension-Returns :
    (bytes : List ℕ) (ext_offset : ℕ)
    → ext_offset + 2 ≤ length bytes
    → Returns (IsInside (length bytes)) (find_sni_extension bytes ext_offset)
unfolding find_sni_extension
find_sni_extension-Returns bytes ext_offset h =
    Returns-bind Any (IsInside (length bytes)) (read_uint16_be bytes ext_offset) _
      (read_uint16_be-Returns bytes ext_offset h)
      λ ext_len _.
        Returns-map (IsInside (ext_end ext_len)) (IsInside (length bytes)) _
          (IsInside-weaken (ext_end ext_len) (length bytes) (within ext_len))
          (find_from-Returns bytes (ext_end ext_len) (length bytes) (ext_offset + 2)
            (within ext_len))
  where
    ext_end : ℕ → ℕ
    ext_end ext_len = min (ext_offset + 2 + ext_len) (length bytes)

    within : (ext_len : ℕ) → ext_end ext_len ≤ length bytes
    within ext_len = omega arith

and_then-Returns :
    (bytes : List ℕ) (ext_offset : Option ℕ)
    → HasTwo bytes ext_offset
    → Returns (IsInside (length bytes)) (and_then bytes ext_offset)
and_then-Returns bytes none h = tt
and_then-Returns bytes (some ext_offset) h = find_sni_extension-Returns bytes ext_offset h

extract_from-Returns :
    (bytes : List ℕ) → 5 < length bytes → Returns (IsInside (length bytes)) (extract_from bytes)
unfolding extract_from
extract_from-Returns bytes h =
    Returns-bind Any (IsInside (length bytes)) (validate_tls_record_header bytes) _
      (validate_tls_record_header-Returns bytes h)
      λ valid _.
        Returns-elim (IsInside (length bytes)) valid _ _
          (λ e.
            Returns-bind (HasTwo bytes) (IsInside (length bytes)) (walk_client_hello_preamble bytes)
              _ (walk_client_hello_preamble-Returns bytes) (and_then-Returns bytes))
          λ e. tt

-- If the payload does not have exactly five bytes, `ExtractTlsSni` reads nothing outside of it, and
-- the name it returns is not empty and lies within the first 512 bytes of the payload.
pub extract_tls_sni-IsInside :
    (payload : List ℕ)
    → (length payload ≡ 5 → ⊥)
    → Returns (IsInside (min 512 (length payload))) (extract_tls_sni payload)
unfolding extract_tls_sni
extract_tls_sni-IsInside payload h =
    Returns-elim (IsInside (min 512 (length payload))) (ltb (length (take 512 payload)) 5) _ _
      (λ e. tt)
      λ e.
        Returns-map (IsInside (length (take 512 payload))) _ _
          (IsInside-weaken _ _ (ground (arith, length-take 512 payload)))
          (extract_from-Returns (take 512 payload) (ground (arith, length-take 512 payload)))

find_from_past :
    (bytes : List ℕ) (ext_end rounds off : ℕ)
    → ext_end ≤ off
    → find_from bytes ext_end rounds off ≡ ok none
unfolding find_from
find_from_past bytes ext_end zero off h = refl
find_from_past bytes ext_end (suc rounds) off h = rw (past, find_from) refl
  where
    past : leb (off + 4) ext_end ≡ false
    past = ground arith

elim_cong {ℓ} :
    {A : Type ℓ} (b : Bool) (x x' y : A)
    → x ≡ x'
    → ◌≡◌ {A = A} (elim b [ true ↦ x | false ↦ y ]) (elim b [ true ↦ x' | false ↦ y ])
elim_cong true x x' y e = e
elim_cong false x x' y e = refl

or_else_cong :
    (found : Option (ℕ × ℕ)) (x y : Checked (Option (ℕ × ℕ)))
    → x ≡ y
    → or_else found x ≡ or_else found y
or_else_cong none x y e = e
or_else_cong (some found) x y e = refl

-- The loop of `FindSniExtension` ends: from a place at most so many bytes before the end of the
-- extensions, more rounds than that do not change its result.
pub find_from_enough :
    (bytes : List ℕ) (ext_end rounds more off : ℕ)
    → ext_end ≤ off + rounds
    → rounds ≤ more
    → find_from bytes ext_end more off ≡ find_from bytes ext_end rounds off
unfolding find_from
find_from_enough bytes ext_end zero more off h k =
    find_from_past bytes ext_end more off (omega arith)
find_from_enough bytes ext_end (suc rounds) zero off h k = absurd (omega arith)
find_from_enough bytes ext_end (suc rounds) (suc more) off h k =
    elim_cong (leb (off + 4) ext_end) _ _ _ (
      bind_cong (read_uint16_be bytes off) _ _ λ ext_type.
        bind_cong (read_uint16_be bytes (off + 2)) _ _ λ ext_data_len.
          bind_cong (sni_name bytes ext_end off ext_type) _ _ λ found. or_else_cong found _ _ (
            find_from_enough bytes ext_end rounds more (off + (4 + ext_data_len)) (omega arith)
              (omega arith)))
