-- ===== src/Parser/Http/Values.antt =====
-- The loops over the value of a header in include/dpdk/spi/spi_packet_parser.cpp, and what the scan
-- for a host looks for.
use dpdk_cpp.Base.{
  ℕ, zero, suc, ◌+◌, ◌<◌, ◌≤◌, false, List, [], ◌∷◌, Option, none, some, ltb, ◌==◌, length, ◌≡◌,
  ◌≢◌, ◌⊎◌, inl, inr, refl, ap, arith, get_elem?, sym, ◌∙◌,
}
use mathlib.Core.Path.{subst}
use native.Mathlib.Decide.{ℕ_discrete}
use dpdk_cpp.Parser.Reads.{
  read, Returns, Returns-bind, Returns-map, Returns-elim, TextAt, read-Returns,
}
use dpdk_cpp.Parser.Http.{host_pattern, skip_spaces, find_return}

-- Every byte from one offset up to another one exists and has a property.
abbrev pub Run : List ℕ → (ℕ → Type 0) → ℕ → ℕ → Type 0
Run bytes P first last =
    (k : ℕ) → first ≤ k → k < last → (b : ℕ) × (get_elem? bytes k ≡ some b) × P b

-- The header ends at an offset: with a carriage return or with the bytes.
abbrev pub EndsAt : List ℕ → ℕ → Type 0
EndsAt bytes off = (off ≡ length bytes) ⊎ (get_elem? bytes off ≡ some 13)

-- The header at `i` has only spaces in it.
abbrev pub IsBlank : List ℕ → ℕ → Type 0
IsBlank bytes i = (off : ℕ) × (i + 7 ≤ off) × Run bytes (λ b. b ≡ 32) (i + 7) off × EndsAt bytes off

-- The host of the header at `i`: after its spaces, up to its end, and not empty.
abbrev pub IsHostAt : List ℕ → ℕ → ℕ → ℕ → Type 0
IsHostAt bytes i start size =
    TextAt bytes i host_pattern
    × (i + 7 ≤ start)
    × Run bytes (λ b. b ≡ 32) (i + 7) start
    × (get_elem? bytes start ≢ some 32)
    × (0 < size)
    × (start + size ≤ length bytes)
    × Run bytes (λ b. b ≢ 13) start (start + size)
    × EndsAt bytes (start + size)

-- What a scan from `i` on has found: the host of a header there, or that every header there is blank.
abbrev pub IsScanned : List ℕ → ℕ → Option (ℕ × ℕ) → Type 0
IsScanned bytes i none =
    (j : ℕ) → i ≤ j → j + 7 < length bytes → TextAt bytes j host_pattern → IsBlank bytes j
IsScanned bytes i (some (start, size)) = (j : ℕ) × (i ≤ j) × IsHostAt bytes j start size

Run-cons :
    (bytes : List ℕ) (P : ℕ → Type 0) (first last b : ℕ)
    → get_elem? bytes first ≡ some b
    → P b
    → Run bytes P (first + 1) last
    → Run bytes P first last
Run-cons bytes P first last b e p run k h k_last = elim (ℕ_discrete first k) [
  | yes same ↦ subst (λ j. (c : ℕ) × (get_elem? bytes j ≡ some c) × P c) same (b, e, p)
  | no apart ↦ run k (ground arith) k_last
]

get_elem?_past : (bytes : List ℕ) (i : ℕ) → length bytes ≤ i → get_elem? bytes i ≡ none
get_elem?_past [] i h = refl
get_elem?_past (b ∷ bytes) zero h = absurd (omega arith)
get_elem?_past (b ∷ bytes) (suc i) h = get_elem?_past bytes i (omega arith)

not_there : (bytes : List ℕ) (i b : ℕ) → length bytes ≤ i → get_elem? bytes i ≢ some b
not_there bytes i b h e = some_apart (sym (get_elem?_past bytes i h) ∙ e)
  where
    some_apart : ◌≢◌ {A = Option ℕ} none (some b)
    some_apart p = ground arith

byte_apart :
    (bytes : List ℕ) (i b c : ℕ)
    → get_elem? bytes i ≡ some b
    → (b == c) ≡ false
    → get_elem? bytes i ≢ some c
byte_apart bytes i b c e n p = pair_apart (sym e ∙ p)
  where
    pair_apart : ◌≢◌ {A = Option ℕ} (some b) (some c)
    pair_apart p = ground arith

Run-none : (bytes : List ℕ) (P : ℕ → Type 0) (off : ℕ) → Run bytes P off off
Run-none bytes P off k h h' = absurd (omega arith)

-- After the spaces: an offset within the bytes with no space.
abbrev pub AfterSpaces : List ℕ → ℕ → ℕ → Type 0
AfterSpaces bytes off start =
    (off ≤ start)
    × (start ≤ length bytes)
    × Run bytes (λ b. b ≡ 32) off start
    × (get_elem? bytes start ≢ some 32)

pub skip_spaces-Returns :
    (bytes : List ℕ) (rounds off : ℕ)
    → off ≤ length bytes
    → length bytes ≤ off + rounds
    → Returns (AfterSpaces bytes off) (skip_spaces bytes rounds off)
unfolding skip_spaces
skip_spaces-Returns bytes zero off h k =
    (omega arith, h, Run-none bytes _ off, not_there bytes off 32 (omega arith))
skip_spaces-Returns bytes (suc rounds) off h k =
    Returns-elim (AfterSpaces bytes off) (ltb off (length bytes)) _ _
      (λ e.
        Returns-bind _ (AfterSpaces bytes off) (read bytes off) _
          (read-Returns bytes off (ground arith))
          λ b there.
            Returns-elim (AfterSpaces bytes off) (b == 32) _ _
              (λ space.
                Returns-map (AfterSpaces bytes (off + 1)) (AfterSpaces bytes off) _
                  (further b there (ground arith))
                  (skip_spaces-Returns bytes rounds (off + 1) (ground arith) (omega arith)))
              λ other.
                (omega arith, h, Run-none bytes _ off, byte_apart bytes off b 32 there other))
      λ e. (omega arith, h, Run-none bytes _ off, not_there bytes off 32 (ground arith))
  where
    further :
        (b : ℕ)
        → get_elem? bytes off ≡ some b
        → b ≡ 32
        → (start : ℕ) → AfterSpaces bytes (off + 1) start
        → AfterSpaces bytes off start
    further b there space start (h, k, run, last) =
        (omega arith, k, Run-cons bytes _ off start b there space run, last)

-- The end of the header from an offset on, with no carriage return before it.
abbrev pub BeforeReturn : List ℕ → ℕ → ℕ → Type 0
BeforeReturn bytes off end =
    (off ≤ end) × (end ≤ length bytes) × Run bytes (λ b. b ≢ 13) off end × EndsAt bytes end

pub find_return-Returns :
    (bytes : List ℕ) (rounds off : ℕ)
    → off ≤ length bytes
    → length bytes ≤ off + rounds
    → Returns (BeforeReturn bytes off) (find_return bytes rounds off)
unfolding find_return
find_return-Returns bytes zero off h k = (omega arith, h, Run-none bytes _ off, inl (omega arith))
find_return-Returns bytes (suc rounds) off h k =
    Returns-elim (BeforeReturn bytes off) (ltb off (length bytes)) _ _
      (λ e.
        Returns-bind _ (BeforeReturn bytes off) (read bytes off) _
          (read-Returns bytes off (ground arith))
          λ b there.
            Returns-elim (BeforeReturn bytes off) (b == 13) _ _
              (λ end. (omega arith, h, Run-none bytes _ off, inr (there ∙ ap some (ground arith))))
              λ other.
                Returns-map (BeforeReturn bytes (off + 1)) (BeforeReturn bytes off) _
                  (further b there (ground arith))
                  (find_return-Returns bytes rounds (off + 1) (ground arith) (omega arith)))
      λ e. (omega arith, h, Run-none bytes _ off, inl (ground arith))
  where
    further :
        (b : ℕ)
        → get_elem? bytes off ≡ some b
        → b ≢ 13
        → (end : ℕ) → BeforeReturn bytes (off + 1) end
        → BeforeReturn bytes off end
    further b there other end (h, k, run, last) =
        (omega arith, k, Run-cons bytes _ off end b there other run, last)
