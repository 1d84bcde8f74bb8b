-- ===== src/Dpi/Rules.antt =====
-- The parts of include/dpdk/dpi/dpi_rule_engine.cpp around Hyperscan: the match callback and what
-- `Match` makes of its calls, the escaping of patterns, and the lookup of a filter group. What
-- `hs_scan` reports is a parameter; strings are their bytes.
pub mod Best
pub mod Groups
use dpdk_cpp.Base.{
  ℕ, zero, suc, ◌+◌, Bool, true, false, ◌&&◌, ◌||◌, List, [], ◌∷◌, Option, none, some, ltb, ◌==◌,
  if◌then◌else◌, get_elem?, length, list_eq,
}

pub record CompiledDpiFilter : Type 0 where
  pub hostname_pattern : List ℕ
  pub is_suffix_match : Bool
  pub is_catch_all : Bool
  pub filter_group : List ℕ
  pub priority : ℕ
  pub label : List ℕ

pub record DpiResult : Type 0 where
  pub filter_group : List ℕ
  pub label : List ℕ
  pub priority : ℕ
  pub matched : Bool

-- `DpiResult{}`.
abbrev pub no_result : DpiResult
no_result = record { filter_group = []; label = []; priority = 0; matched = false }

abbrev pub result_of : CompiledDpiFilter → DpiResult
result_of f = record {
  filter_group = f.filter_group;
  label = f.label;
  priority = f.priority;
  matched = true;
}

pub record HsMatchContext : Type 0 where
  pub matched_filter_idx : ℕ
  pub best_priority : ℕ

abbrev pub new_context : HsMatchContext
new_context = record { matched_filter_idx = 4294967295; best_priority = 4294967295 }

unfoldable pub on_hyperscan_match : List CompiledDpiFilter → HsMatchContext → ℕ → HsMatchContext
on_hyperscan_match filters context id = elim (get_elem? filters id) [
  | none ↦ context
  | some f ↦
      if ltb f.priority context.best_priority
      then record { matched_filter_idx = id; best_priority = f.priority }
      else context
]

-- The calls of the callback during one `hs_scan`, one for each id reported.
unfoldable pub scan : List CompiledDpiFilter → HsMatchContext → List ℕ → HsMatchContext
unfolding on_hyperscan_match
scan filters context [] = context
scan filters context (id ∷ ids) = scan filters (on_hyperscan_match filters context id) ids

-- `Match` with a scratch buffer: `reported` are the ids of the scan, `none` if it fails.
unfoldable pub match_reported : List CompiledDpiFilter → List ℕ → Option (List ℕ) → DpiResult
unfolding scan
match_reported filters [] reported = no_result
match_reported filters (c ∷ hostname) none = no_result
match_reported filters (c ∷ hostname) (some ids) =
    elim (get_elem? filters (scan filters new_context ids).matched_filter_idx) [
      | none ↦ no_result
      | some f ↦ result_of f
    ]

-- The characters that `EscapeRegex` puts a backslash before.
unfoldable pub is_special : ℕ → List ℕ → Bool
is_special c [] = false
is_special c (s ∷ specials) = c == s || is_special c specials

abbrev pub specials : List ℕ
specials =
    46 ∷ 92 ∷ 43 ∷ 42 ∷ 63 ∷ 91 ∷ 94 ∷ 93 ∷ 36 ∷ 40 ∷ 41 ∷ 123 ∷ 125 ∷ 61 ∷ 33 ∷ 60 ∷ 62 ∷ 124 ∷ 58
    ∷ []

unfoldable pub escape_regex : List ℕ → List ℕ
unfolding is_special
escape_regex [] = []
escape_regex (c ∷ text) =
    if is_special c specials then 92 ∷ c ∷ escape_regex text else c ∷ escape_regex text

unfoldable pub suffix_key_of : List ℕ → List ℕ
suffix_key_of (c ∷ d ∷ rest) = if c == 42 && d == 46 then rest else []
suffix_key_of _ = []

-- `FindByFilterGroup` from this index on.
unfoldable pub find_from : List ℕ → ℕ → List CompiledDpiFilter → Option ℕ
unfolding list_eq
find_from name i [] = none
find_from name i (f ∷ filters) =
    let rest = find_from name (i + 1) filters in
    if list_eq f.filter_group name then some i else rest

unfoldable pub find_by_filter_group : List CompiledDpiFilter → List ℕ → Option ℕ
unfolding find_from
find_by_filter_group filters [] = none
find_by_filter_group filters (c ∷ name) = find_from (c ∷ name) 0 filters
