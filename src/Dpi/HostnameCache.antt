-- ===== src/Dpi/HostnameCache.antt =====
-- `HostnameCache` of include/dpdk/dpi/hostname_cache.hpp. A hostname is its bytes, the two key words
-- of an entry are their bytes in memory, and the slots are a function of their indices.
pub mod Reading
pub mod Writing
use dpdk_cpp.Base.{
  ℕ, zero, suc, ◌+◌, ◌-◌, ◌*◌, ◌%◌, ◌^◌, Bool, true, false, ◌&&◌, ◌||◌, not, List, [], ◌∷◌, ◌++◌,
  Option, none, some, ltb, leb, ◌==◌, if◌then◌else◌, length, take, drop, replicate, list_eq,
  bit_xor,
}

pub record Entry : Type 0 where
  pub hash : ℕ
  pub key32 : List ℕ
  pub key64 : List ℕ
  pub filter_index : ℕ
  pub generation : ℕ

-- `kNoMatchIdx`.
abbrev pub no_match_idx : ℕ
no_match_idx = 65535

abbrev pub empty_entry : Entry
empty_entry = record {
  hash = 0;
  key32 = replicate 4 0;
  key64 = replicate 8 0;
  filter_index = no_match_idx;
  generation = 0;
}

-- `clear`, and the slots of a new cache.
abbrev pub clear : ℕ → Entry
clear _ = empty_entry

-- A `char` as a `std::uint32_t`, its sign extended.
abbrev pub widened : ℕ → ℕ
widened byte = if ltb byte 128 then byte else byte + 4294967040

unfoldable pub hash_from : ℕ → List ℕ → ℕ
hash_from hash [] = hash
hash_from hash (byte ∷ bytes) = hash_from (bit_xor hash (widened byte) * 16777619 % 2 ^ 32) bytes

unfoldable pub hash32 : List ℕ → ℕ
unfolding hash_from
hash32 hostname = hash_from 2166136261 hostname

abbrev pub padded : ℕ → List ℕ → List ℕ
padded n bytes = bytes ++ replicate (n - length bytes) 0

-- The bytes that `key32` and `key64` hold of a hostname.
abbrev pub first4 : List ℕ → List ℕ
first4 hostname = take 4 hostname

abbrev pub next8 : List ℕ → List ℕ
next8 hostname = take 8 (drop 4 hostname)

unfoldable pub key_matches : Entry → List ℕ → Bool
unfolding list_eq
key_matches entry hostname =
    if ltb (length hostname) 4
    then true
    else if not (list_eq (first4 hostname) entry.key32)
    then false
    else if leb (length hostname) 4
    then true
    else list_eq (next8 hostname) (take (length (next8 hostname)) entry.key64)

unfoldable pub store_entry : ℕ → List ℕ → ℕ → ℕ → Entry
store_entry hash hostname filter_index generation = record {
  hash = hash;
  key32 = padded 4 (first4 hostname);
  key64 = padded 8 (next8 hostname);
  filter_index = filter_index;
  generation = generation;
}

abbrev pub put : (ℕ → Entry) → ℕ → Entry → ℕ → Entry
put slots i v j = if j == i then v else slots j

abbrev pub slot : ℕ → ℕ → ℕ
slot hash probe = (hash + probe) % 4096

unfoldable pub is_hit : Entry → ℕ → List ℕ → ℕ → Bool
unfolding key_matches
is_hit entry hash hostname generation =
    not (entry.hash == 0)
    && entry.hash == hash
    && entry.generation == generation
    && key_matches entry hostname

-- The probes of `Lookup` from `probe` on for so many more rounds, the first slot's among them.
unfoldable pub lookup_from : (ℕ → Entry) → ℕ → List ℕ → ℕ → ℕ → ℕ → ℕ
unfolding is_hit
lookup_from slots hash hostname generation probe zero = no_match_idx
lookup_from slots hash hostname generation probe (suc rounds) =
    let rest = lookup_from slots hash hostname generation (probe + 1) rounds in
    let entry = slots (slot hash probe) in
    if is_hit entry hash hostname generation then entry.filter_index else rest

unfoldable pub lookup : (ℕ → Entry) → List ℕ → ℕ → ℕ
unfolding lookup_from hash32
lookup slots [] generation = no_match_idx
lookup slots (c ∷ hostname) generation =
    lookup_from slots (hash32 (c ∷ hostname)) (c ∷ hostname) generation 0 4

-- What `Insert` writes into a slot, if it stops there.
unfoldable pub written : Entry → ℕ → List ℕ → ℕ → ℕ → Option Entry
unfolding key_matches store_entry
written entry hash hostname filter_index generation =
    if entry.hash == 0
    then some (store_entry hash hostname filter_index generation)
    else if entry.hash == hash && key_matches entry hostname
    then some (record entry { filter_index = filter_index; generation = generation })
    else none

-- The probes of `Insert` from `probe` on for so many more rounds: the slot written and what with.
unfoldable pub insert_from : (ℕ → Entry) → ℕ → List ℕ → ℕ → ℕ → ℕ → ℕ → Option (ℕ × Entry)
unfolding written
insert_from slots hash hostname filter_index generation probe zero = none
insert_from slots hash hostname filter_index generation probe (suc rounds) =
    let rest = insert_from slots hash hostname filter_index generation (probe + 1) rounds in
    elim (written (slots (slot hash probe)) hash hostname filter_index generation) [
      | none ↦ rest
      | some entry ↦ some (slot hash probe, entry)
    ]

abbrev pub put_written : (ℕ → Entry) → Option (ℕ × Entry) → ℕ → Entry
put_written slots none = slots
put_written slots (some (i, entry)) = put slots i entry

unfoldable pub insert : (ℕ → Entry) → List ℕ → ℕ → ℕ → ℕ → Entry
unfolding insert_from hash32
insert slots [] filter_index generation = slots
insert slots (c ∷ hostname) filter_index generation =
    put_written slots
      (insert_from slots (hash32 (c ∷ hostname)) (c ∷ hostname) filter_index generation 0 4)
