-- ===== src/Tests/HostRuns.antt =====
-- The hostname cache and the DPI rules on concrete names.
use dpdk_cpp.Base.{ℕ, List, [], ◌∷◌, ◌≡◌, refl, arith, some, true, false}
use dpdk_cpp.Dpi.Rules.{CompiledDpiFilter, find_by_filter_group, match_reported}
use dpdk_cpp.Dpi.Rules.Best.{NoneBelow, match_reported-NoneBelow}
use dpdk_cpp.Dpi.Rules.Groups.{IsFirst, find_by_filter_group-IsFirst}
use dpdk_cpp.Dpi.HostnameCache.{clear, hash32, insert, insert_from, lookup, store_entry}
use dpdk_cpp.Dpi.HostnameCache.Reading.{lookup-insert_stored, lookup-insert_other_hash}

-- "ab.de".
abbrev pub name5 : List ℕ
name5 = 97 ∷ 98 ∷ 46 ∷ 100 ∷ 101 ∷ []

lookup-insert_stored_example : lookup (insert clear name5 6 1) name5 1 ≡ 6
unfolding hash32 insert_from
lookup-insert_stored_example =
    lookup-insert_stored clear name5 6 1 _ (store_entry (hash32 name5) name5 6 1) (ground arith)
      (ground arith) refl

lookup-insert_other_hash_example :
    lookup (insert clear name5 6 1) (97 ∷ []) 1 ≡ lookup clear (97 ∷ []) 1
unfolding hash32
lookup-insert_other_hash_example =
    lookup-insert_other_hash clear name5 (97 ∷ []) 6 1 1 (ground arith)

-- Two filters of priorities 5 and 3.
abbrev pub filters2 : List CompiledDpiFilter
filters2 =
    record {
      hostname_pattern = name5;
      is_suffix_match = false;
      is_catch_all = false;
      filter_group = 1 ∷ [];
      priority = 5;
      label = [];
    }
    ∷ record {
      hostname_pattern = 42 ∷ [];
      is_suffix_match = false;
      is_catch_all = true;
      filter_group = 2 ∷ [];
      priority = 3;
      label = [];
    }
    ∷ []

match_reported-NoneBelow_example :
    NoneBelow filters2 (match_reported filters2 name5 (some (0 ∷ 1 ∷ []))).priority (0 ∷ 1 ∷ [])
unfolding match_reported
match_reported-NoneBelow_example =
    match_reported-NoneBelow filters2 97 (98 ∷ 46 ∷ 100 ∷ 101 ∷ []) (0 ∷ 1 ∷ []) refl refl

find_by_filter_group-IsFirst_example : IsFirst (2 ∷ []) 0 filters2 1
unfolding find_by_filter_group
find_by_filter_group-IsFirst_example = find_by_filter_group-IsFirst filters2 (2 ∷ []) 1 refl
