-- ===== src/Dpi/Rules/Groups.antt =====
-- `FindByFilterGroup` of include/dpdk/dpi/dpi_rule_engine.cpp.
use dpdk_cpp.Base.{
  ℕ, ◌+◌, ◌≢◌, false, List, [], ◌∷◌, some, ◌≡◌, ap, arith, list_eq, list_eq-eq, list_eq_self,
  Bool-cases, inl, inr,
}
use mathlib.Core.Path.{subst}
use dpdk_cpp.Dpi.Rules.{CompiledDpiFilter, find_by_filter_group, find_from}

-- The filter at this index, counted from `start`, is the first of the group.
pub data IsFirst (name : List ℕ) : ℕ → List CompiledDpiFilter → ℕ → Type 0 where
  found_here :
      (start : ℕ) (f : CompiledDpiFilter) (filters : List CompiledDpiFilter)
      → f.filter_group ≡ name
      → IsFirst name start (f ∷ filters) start
  found_later :
      (start i : ℕ) (f : CompiledDpiFilter) (filters : List CompiledDpiFilter)
      → f.filter_group ≢ name
      → IsFirst name (start + 1) filters i
      → IsFirst name start (f ∷ filters) i

find_from-IsFirst :
    (name : List ℕ) (start i : ℕ) (filters : List CompiledDpiFilter)
    → find_from name start filters ≡ some i
    → IsFirst name start filters i
unfolding find_from
find_from-IsFirst name start i [] e = absurd (ground arith)
find_from-IsFirst name start i (f ∷ filters) e = elim (Bool-cases (list_eq f.filter_group name)) [
  | inl same ↦
      subst (IsFirst name start (f ∷ filters)) (ground arith)
        (found_here start f filters (list_eq-eq f.filter_group name same))
  | inr other ↦
      found_later start i f filters (λ p. absurd (differ other p))
        (find_from-IsFirst name (start + 1) i filters (ground arith))
]
  where
    differ : list_eq f.filter_group name ≡ false → f.filter_group ≡ name → ⊥
    differ other p = ground (arith, list_eq_self name, ap (λ g. list_eq g name) p, other)

-- When `FindByFilterGroup` finds an index, the filter there has the group asked for, and no filter
-- before it has.
pub find_by_filter_group-IsFirst :
    (filters : List CompiledDpiFilter) (name : List ℕ) (i : ℕ)
    → find_by_filter_group filters name ≡ some i
    → IsFirst name 0 filters i
unfolding find_by_filter_group
find_by_filter_group-IsFirst filters [] i e = absurd (ground arith)
find_by_filter_group-IsFirst filters (c ∷ name) i e = find_from-IsFirst (c ∷ name) 0 i filters e
