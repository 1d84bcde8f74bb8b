-- ===== src/Spi/Compile/Links.antt =====
-- The positions of the sorted groups, and `ResolveDpiLinks`.
use dpdk_cpp.Base.{
  ℕ, zero, suc, ◌+◌, Bool, true, List, [], ◌∷◌, Option, none, some, ◌≡◌, refl, arith, get_elem?,
  length, Option-cases, Bool-cases, inl, inr, ◌==◌,
}
use mathlib.Core.Path.{subst}
use dpdk_cpp.Spi.Compile.{number_groups, resolve_dpi_links, resolve_group, resolved_from}
use dpdk_cpp.Spi.Match.{CompiledFilterGroup, result_for_category, result_with}

-- The category that a numbered group carries is its position, counted from the first number.
pub number_groups-category :
    (start : ℕ) (groups : List CompiledFilterGroup) (i : ℕ) (g : CompiledFilterGroup)
    → get_elem? (number_groups start groups) i ≡ some g
    → g.category_index ≡ start + i
unfolding number_groups
number_groups-category start [] i g e = absurd (ground arith)
number_groups-category start (h ∷ groups) zero g e = ground arith
number_groups-category start (h ∷ groups) (suc i) g e =
    omega (arith, number_groups-category (start + 1) groups i g e)

-- For a group of the numbered list, `ResultForCategory` at the category it carries gives that
-- group's result.
result_for_category-number_groups :
    (groups : List CompiledFilterGroup) (i : ℕ) (g : CompiledFilterGroup)
    → get_elem? (number_groups 0 groups) i ≡ some g
    → result_for_category (number_groups 0 groups) g.category_index ≡ result_with g []
unfolding result_for_category
result_for_category-number_groups groups i g e = rw (position, e, result_for_category) refl
  where
    position : g.category_index ≡ i
    position = omega (arith, number_groups-category 0 groups i g e)

-- What became of one group: without a name it is unchanged, otherwise its name is gone and it has the
-- index that was found for it.
pub data IsResolved (find : List ℕ → Option ℕ) (before : CompiledFilterGroup)
    : CompiledFilterGroup → Type 0 where
  unlinked : length before.bound_dpi_name ≡ 0 → IsResolved find before before
  linked :
      (idx : ℕ)
      → find before.bound_dpi_name ≡ some idx
      → IsResolved find before (record before { bound_dpi_filter_index = idx; bound_dpi_name = [] })

pub data AllResolved (find : List ℕ → Option ℕ)
    : List CompiledFilterGroup → List CompiledFilterGroup → Type 0 where
  no_groups : AllResolved find [] []
  next_group :
      (before after : CompiledFilterGroup) (befores afters : List CompiledFilterGroup)
      → IsResolved find before after
      → AllResolved find befores afters
      → AllResolved find (before ∷ befores) (after ∷ afters)

resolve_group-IsResolved :
    (find : List ℕ → Option ℕ) (group : CompiledFilterGroup) (after : CompiledFilterGroup)
    → resolve_group find group ≡ some after
    → IsResolved find group after
unfolding resolve_group
resolve_group-IsResolved find group after e = elim (Bool-cases (length group.bound_dpi_name == 0)) [
  | inl empty ↦ subst (IsResolved find group) (ground arith) (unlinked (ground arith))
  | inr named ↦ elim (Option-cases (find group.bound_dpi_name)) [
    | inl none_e ↦ absurd (ground arith)
    | inr (idx, idx_e) ↦ subst (IsResolved find group) (ground arith) (linked idx idx_e)
  ]
]

resolved_from-AllResolved :
    (find : List ℕ → Option ℕ) (group : CompiledFilterGroup) (groups : List CompiledFilterGroup)
    (rest : List CompiledFilterGroup × Bool) (r : Option CompiledFilterGroup)
    → resolve_group find group ≡ r
    → (rest.1 ≡ true → AllResolved find groups rest.0)
    → (resolved_from (group ∷ groups) rest r).1 ≡ true
    → AllResolved find (group ∷ groups) (resolved_from (group ∷ groups) rest r).0
resolved_from-AllResolved find group groups rest none r_e h e = absurd (ground arith)
resolved_from-AllResolved find group groups rest (some after) r_e h e =
    next_group group after groups rest.0 (resolve_group-IsResolved find group after r_e) (h e)

-- When `ResolveDpiLinks` reports success, every group that had a DPI name has the index that was
-- found for it and no name any more, and every other group is unchanged.
pub resolve_dpi_links-AllResolved :
    (find : List ℕ → Option ℕ) (groups : List CompiledFilterGroup)
    → (resolve_dpi_links find groups).1 ≡ true
    → AllResolved find groups (resolve_dpi_links find groups).0
unfolding resolve_dpi_links
resolve_dpi_links-AllResolved find [] e = no_groups
resolve_dpi_links-AllResolved find (group ∷ groups) e =
    resolved_from-AllResolved find group groups (resolve_dpi_links find groups)
      (resolve_group find group) refl (resolve_dpi_links-AllResolved find groups) e
