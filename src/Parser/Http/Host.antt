-- ===== src/Parser/Http/Host.antt =====
-- What the scan for a host in include/dpdk/spi/spi_packet_parser.cpp finds.
use dpdk_cpp.Base.{
  ℕ, zero, suc, ◌+◌, ◌-◌, ◌%◌, ◌^◌, ◌<◌, ◌≤◌, Bool, true, false, List, [], ◌∷◌, Option, none, some,
  ltb, if◌then◌else◌, length, take, length-take, ◌≡◌, ◌≢◌, refl, All, arith, sym,
}
use mathlib.Core.Path.{subst}
use native.Mathlib.Decide.{ℕ_discrete}
use dpdk_cpp.Parser.Reads.{
  ok, ◌>>=◌, is_text_at, Returns, Returns-bind, Returns-map, Returns-elim, Any, TextAt, Decides,
  is_text_at-Decides,
}
use dpdk_cpp.Parser.Http.{
  host_pattern, skip_spaces, find_return, host_at, or_next, host_from, find_host_header_value,
  is_any_at, is_http_method_valid, host_of, extract_http_host, methods,
}
use dpdk_cpp.Parser.Http.Values.{
  Run, EndsAt, IsBlank, IsHostAt, IsScanned, AfterSpaces, BeforeReturn, skip_spaces-Returns,
  find_return-Returns,
}

-- What the body of the outer loop finds at `i`.
FoundAt : List ℕ → ℕ → Option (ℕ × ℕ) → Type 0
FoundAt bytes i none = TextAt bytes i host_pattern → IsBlank bytes i
FoundAt bytes i (some (start, size)) = IsHostAt bytes i start size

host_at-Returns :
    (bytes : List ℕ) (i : ℕ)
    → length bytes < 2 ^ 16
    → i + 7 < length bytes
    → Returns (FoundAt bytes i) (host_at bytes i)
unfolding FoundAt host_at
host_at-Returns bytes i few h =
    Returns-bind (Decides (TextAt bytes i host_pattern)) (FoundAt bytes i)
      (is_text_at bytes i host_pattern) _ (is_text_at-Decides bytes i host_pattern (omega arith))
      λ found d. found_cases found d
  where
    same : (start end : ℕ) → start ≤ end → end ≤ length bytes → end ≡ start + (end - start) % 2 ^ 16
    same start end h h' = omega (arith, few)

    value :
        TextAt bytes i host_pattern
        → (start : ℕ) → AfterSpaces bytes (i + 7) start
        → (end : ℕ) → BeforeReturn bytes start end
        → (longer : Bool) → ltb start end ≡ longer
        → FoundAt bytes i (if longer then some (start, (end - start) % 2 ^ 16) else none)
    value t start (k, k', spaces, other) end (m, m', run, last) true e = (
      t,
      k,
      spaces,
      other,
      ground arith,
      omega arith,
      subst (λ (x : ℕ). Run bytes (λ b. b ≢ 13) start x) (same start end m m') run,
      subst (λ (x : ℕ). EndsAt bytes x) (same start end m m') last,
    )
    value t start (k, k', spaces, other) end (m, m', run, last) false e =
        λ _. (start, k, spaces, subst (λ (x : ℕ). EndsAt bytes x) ends last)
      where
        ends : end ≡ start
        ends = ground arith

    found_cases :
        (found : Bool)
        → Decides (TextAt bytes i host_pattern) found
        → Returns (FoundAt bytes i) (elim found [
          | false ↦ ok none
          | true ↦ do
            host_start ← skip_spaces bytes (length bytes) (i + 7)
            host_off ← find_return bytes (length bytes) host_start
            ok (
                if ltb host_start host_off
                then some (host_start, (host_off - host_start) % 2 ^ 16)
                else none)
        ])
    found_cases false d = λ t. absurd (d t)
    found_cases true d =
        Returns-bind (AfterSpaces bytes (i + 7)) (FoundAt bytes i)
          (skip_spaces bytes (length bytes) (i + 7)) _
          (skip_spaces-Returns bytes (length bytes) (i + 7) (omega arith) (omega arith))
          λ start s.
            Returns-bind (BeforeReturn bytes start) (FoundAt bytes i)
              (find_return bytes (length bytes) start) _
              (find_return-Returns bytes (length bytes) start s.1 (omega arith))
              λ end r. value d start s end r (ltb start end) refl

host_from-Returns :
    (bytes : List ℕ) (rounds i : ℕ)
    → length bytes < 2 ^ 16
    → length bytes ≤ i + rounds
    → Returns (IsScanned bytes i) (host_from bytes rounds i)
unfolding host_from FoundAt
host_from-Returns bytes zero i few h = λ j k k'. absurd (omega arith)
host_from-Returns bytes (suc rounds) i few h =
    Returns-elim (IsScanned bytes i) (ltb (i + 7) (length bytes)) _ _
      (λ e.
        Returns-bind (FoundAt bytes i) (IsScanned bytes i) (host_at bytes i) _
          (host_at-Returns bytes i few (ground arith))
          λ found f. next found f (host_from-Returns bytes rounds (i + 1) few (omega arith)))
      λ e j k k'. absurd (ground arith)
  where
    later :
        (found : Option (ℕ × ℕ))
        → FoundAt bytes i none
        → IsScanned bytes (i + 1) found
        → IsScanned bytes i found
    later none blank scanned = λ j k k' t. elim (ℕ_discrete i j) [
      | yes same ↦
          subst (λ (x : ℕ). IsBlank bytes x) same
            (blank (subst (λ (x : ℕ). TextAt bytes x host_pattern) (sym same) t))
      | no apart ↦ scanned j (ground arith) k' t
    ]
    later (some (start, size)) blank (j, k, host) = (j, omega arith, host)

    next :
        (found : Option (ℕ × ℕ))
        → FoundAt bytes i found
        → Returns (IsScanned bytes (i + 1)) (host_from bytes rounds (i + 1))
        → Returns (IsScanned bytes i) (or_next found (host_from bytes rounds (i + 1)))
    next none f rest =
        Returns-map (IsScanned bytes (i + 1)) (IsScanned bytes i) _ (λ found. later found f) rest
    next (some (start, size)) f rest = (i, omega arith, f)

is_any_at-Returns :
    (bytes : List ℕ) (offset : ℕ) (texts : List (List ℕ))
    → All (λ text. offset + length text ≤ length bytes) texts
    → Returns Any (is_any_at bytes offset texts)
unfolding is_any_at
is_any_at-Returns bytes offset [] h = tt
is_any_at-Returns bytes offset (text ∷ texts) (h, hs) =
    Returns-bind _ Any (is_text_at bytes offset text) _ (is_text_at-Decides bytes offset text h)
      λ found _. either found (is_any_at-Returns bytes offset texts hs)
  where
    either :
        (found : Bool)
        → Returns Any (is_any_at bytes offset texts)
        → Returns Any (if found then ok true else is_any_at bytes offset texts)
    either true rest = tt
    either false rest = rest

-- What `ExtractHttpHost` returns for the bytes that it looks at: a host, or nothing if they do not
-- begin with a method or every header for a host is blank.
abbrev pub IsHost : List ℕ → Option (ℕ × ℕ) → Type 0
IsHost bytes none = Unit
IsHost bytes (some (start, size)) = (j : ℕ) × (4 ≤ j) × IsHostAt bytes j start size

-- Of less than 65536 bytes, `FindHostHeaderValue` reads nothing outside of them. A host it returns is
-- not empty, lies in them after `\r\nHost:` and spaces, has no carriage return, and goes on to one or to the end; if
-- it returns none, every `\r\nHost:` after the method with a byte behind it has only spaces up to
-- its end.
pub find_host_header_value-IsScanned :
    (bytes : List ℕ)
    → length bytes < 2 ^ 16
    → Returns (IsScanned bytes 4) (find_host_header_value bytes)
unfolding find_host_header_value
find_host_header_value-IsScanned bytes few =
    host_from-Returns bytes (length bytes) 4 few (omega arith)

host_of-Returns :
    (bytes : List ℕ)
    → length bytes < 2 ^ 16
    → 4 ≤ length bytes
    → Returns (IsHost bytes) (host_of bytes)
unfolding host_of is_http_method_valid
host_of-Returns bytes few h =
    Returns-bind Any (IsHost bytes) (is_any_at bytes 0 methods) _
      (is_any_at-Returns bytes 0 methods (h, (h, (h, (h, (h, (h, (h, tt))))))))
      λ valid _.
        Returns-elim (IsHost bytes) valid _ _
          (λ e.
            Returns-map (IsScanned bytes 4) (IsHost bytes) _ host
              (find_host_header_value-IsScanned bytes few))
          λ e. tt
  where
    host : (found : Option (ℕ × ℕ)) → IsScanned bytes 4 found → IsHost bytes found
    host none s = tt
    host (some (start, size)) s = s

-- `ExtractHttpHost` reads nothing outside of the payload, and a host that it returns is that of a
-- `\r\nHost:` header within the first 256 bytes.
pub extract_http_host-IsHost :
    (payload : List ℕ) → Returns (IsHost (take 256 payload)) (extract_http_host payload)
unfolding extract_http_host
extract_http_host-IsHost payload =
    Returns-elim (IsHost (take 256 payload)) (ltb (length (take 256 payload)) 4) _ _ (λ e. tt)
      λ e.
        host_of-Returns (take 256 payload) (omega (arith, length-take 256 payload)) (ground arith)
