-- ===== src/Spi/Compile.antt =====
-- The parts of `CompileRuleTable` and `ResolveDpiLinks` of include/dpdk/spi/spi_rule_engine.cpp that
-- decide what is compiled and where: the ranges of the parsing threads, the order of the groups, the
-- chunks, their rules, and the links to DPI groups.
pub mod Ranges
pub mod Links
use dpdk_cpp.Base.{
  ℕ, zero, suc, ◌+◌, ◌-◌, ◌*◌, ◌/◌, ◌%◌, ◌^◌, Bool, true, false, ◌&&◌, ◌||◌, not, List, [], ◌∷◌,
  ◌++◌, Option, none, some, ltb, leb, ◌==◌, if◌then◌else◌, length, get_or, take, drop, map, min,
}
use dpdk_cpp.Spi.Filter.{
  AclRule, Compiled, compiled, refused, CompiledFilter, FilterError, SpiFilterConfig,
  build_acl_rule, compile_filter, parse_action,
}
use dpdk_cpp.Spi.Match.{CompiledFilterGroup, filter_count, no_index}

pub record SpiFilterGroupConfig : Type 0 where
  pub name : List ℕ
  pub precedence : ℕ
  pub action : List ℕ
  pub filters : List SpiFilterConfig
  pub l7_required : Bool
  pub dpi_filter_group : List ℕ

-- The `while` loop that hands groups to one worker: `rounds` bounds how many are left, `assigned` is
-- what the worker has. The result is the next group and what is assigned.
unfoldable pub take_groups : (ℕ → ℕ) → ℕ → ℕ → ℕ → ℕ → ℕ → ℕ × ℕ
take_groups counts max_end target zero next assigned = (next, assigned)
take_groups counts max_end target (suc rounds) next assigned =
    let rest = take_groups counts max_end target rounds (next + 1) (assigned + counts next) in
    if ltb next max_end && (assigned == 0 || leb (assigned + counts next) target)
    then rest
    else (next, assigned)

-- One worker takes at least one group.
unfoldable pub worker_range : (ℕ → ℕ) → ℕ → ℕ → ℕ → ℕ × ℕ
unfolding take_groups
worker_range counts max_end target start =
    let taken = take_groups counts max_end target (max_end - start) start 0 in
    if taken.0 == start then (start + 1, taken.1 + counts start) else taken

-- `parse_ranges` for so many workers that are left, of `total` groups.
unfoldable pub parse_ranges : (ℕ → ℕ) → ℕ → ℕ → ℕ → ℕ → List (ℕ × ℕ)
unfolding worker_range
parse_ranges counts total zero next remaining = []
parse_ranges counts total (suc others) next remaining =
    let target = (remaining + others) / suc others in
    let range = worker_range counts (total - others) target next in
    (next, range.0) ∷ parse_ranges counts total others range.0 (remaining - range.1)

-- Insertion of a group behind those of smaller or equal precedence: with it `std::ranges::sort` is
-- one of the orders that it may give for groups of equal precedence.
unfoldable pub insert_sorted :
    CompiledFilterGroup → List CompiledFilterGroup → List CompiledFilterGroup
insert_sorted g [] = g ∷ []
insert_sorted g (h ∷ groups) =
    let rest = insert_sorted g groups in
    if ltb g.precedence h.precedence then g ∷ h ∷ groups else h ∷ rest

unfoldable pub sort_groups : List CompiledFilterGroup → List CompiledFilterGroup
unfolding insert_sorted
sort_groups [] = []
sort_groups (g ∷ groups) = insert_sorted g (sort_groups groups)

-- `category_index` after sorting, from this position on.
unfoldable pub number_groups : ℕ → List CompiledFilterGroup → List CompiledFilterGroup
number_groups i [] = []
number_groups i (g ∷ groups) = record g { category_index = i } ∷ number_groups (i + 1) groups

module _ (inet_pton4 : List ℕ → Option ℕ) (be_to_cpu_32 : ℕ → ℕ) where
  abbrev pub cons_filter :
      Compiled CompiledFilter → Compiled (List CompiledFilter) → Compiled (List CompiledFilter)
  cons_filter (refused e) rest = refused e
  cons_filter (compiled f) (refused e) = refused e
  cons_filter (compiled f) (compiled rest) = compiled (f ∷ rest)

  unfoldable pub compile_filters : List SpiFilterConfig → Compiled (List CompiledFilter)
  unfolding compile_filter
  compile_filters [] = compiled []
  compile_filters (config ∷ configs) =
      cons_filter (compile_filter inet_pton4 be_to_cpu_32 config) (compile_filters configs)

  abbrev pub group_with :
      SpiFilterGroupConfig → ℕ → Compiled (List CompiledFilter) → Compiled CompiledFilterGroup
  group_with config index (refused e) = refused e
  group_with config index (compiled filters) = compiled (record {
    name = config.name;
    precedence = config.precedence;
    action = parse_action config.action;
    filters = filters;
    category_index = index;
    l7_required = config.l7_required;
    bound_dpi_filter_index = no_index;
    bound_dpi_name = config.dpi_filter_group;
  })

  unfoldable pub compile_group : ℕ → SpiFilterGroupConfig → Compiled CompiledFilterGroup
  unfolding compile_filters parse_action
  compile_group index config = group_with config index (compile_filters config.filters)

pub record ChunkTaskSpec : Type 0 where
  pub start_group_index : ℕ
  pub chunk_count : ℕ

-- `task_specs` from this start on, for so many more rounds.
unfoldable pub task_specs : List CompiledFilterGroup → ℕ → ℕ → List ChunkTaskSpec
unfolding filter_count
task_specs groups start_idx zero = []
task_specs groups start_idx (suc rounds) =
    let rest = task_specs groups (start_idx + 256) rounds in
    let chunk_count = min 256 (length groups - start_idx) in
    if not (ltb start_idx (length groups))
    then []
    else if ltb 0 (filter_count (take chunk_count (drop start_idx groups)))
    then record { start_group_index = start_idx; chunk_count = chunk_count } ∷ rest
    else rest

-- The rules of a group from filter `f` on.
unfoldable pub group_rules : ℕ → ℕ → ℕ → ℕ → List CompiledFilter → List AclRule
unfolding build_acl_rule
group_rules max_priority precedence cat f [] = []
group_rules max_priority precedence cat f (filter ∷ filters) =
    build_acl_rule max_priority filter cat f precedence
    ∷ group_rules max_priority precedence cat (f + 1) filters

-- The rules of the groups from number `cat` on, those of a chunk and of `RebuildInPlace`.
unfoldable pub rules_from : ℕ → ℕ → List CompiledFilterGroup → List AclRule
unfolding group_rules
rules_from max_priority cat [] = []
rules_from max_priority cat (g ∷ groups) =
    group_rules max_priority g.precedence cat 0 g.filters
    ++ rules_from max_priority (cat + 1) groups

unfoldable pub chunk_rules : ℕ → List CompiledFilterGroup → ChunkTaskSpec → List AclRule
unfolding rules_from
chunk_rules max_priority groups spec =
    rules_from max_priority spec.start_group_index
      (take spec.chunk_count (drop spec.start_group_index groups))

-- One round of `ResolveDpiLinks`; `find_by_filter_group` is the DPI table's. A group whose name is
-- not found stays as it is.
unfoldable pub resolve_group :
    (List ℕ → Option ℕ) → CompiledFilterGroup → Option CompiledFilterGroup
resolve_group find_by_filter_group group =
    if length group.bound_dpi_name == 0
    then some group
    else elim (find_by_filter_group group.bound_dpi_name) [
      | none ↦ none
      | some idx ↦ some (record group { bound_dpi_filter_index = idx; bound_dpi_name = [] })
    ]

-- The groups from a resolved one on, given what becomes of those behind it; those behind a failure
-- are as they were.
abbrev pub resolved_from :
    List CompiledFilterGroup
    → List CompiledFilterGroup × Bool
    → Option CompiledFilterGroup
    → List CompiledFilterGroup × Bool
resolved_from groups rest none = (groups, false)
resolved_from groups rest (some resolved) = (resolved ∷ rest.0, rest.1)

-- The groups afterwards, and whether all links were found.
unfoldable pub resolve_dpi_links :
    (List ℕ → Option ℕ) → List CompiledFilterGroup → List CompiledFilterGroup × Bool
unfolding resolve_group
resolve_dpi_links find_by_filter_group [] = ([], true)
resolve_dpi_links find_by_filter_group (group ∷ groups) =
    resolved_from (group ∷ groups) (resolve_dpi_links find_by_filter_group groups)
      (resolve_group find_by_filter_group group)
