-- ===== src/Dpi/Rules/Best.antt =====
-- Which filter `Match` of include/dpdk/dpi/dpi_rule_engine.cpp picks among those that Hyperscan
-- reports.
use dpdk_cpp.Base.{
  ℕ, ◌≤◌, true, List, [], ◌∷◌, Option, none, some, ◌≡◌, refl, sym, arith, get_elem?, Option-cases,
  inl, inr,
}
use mathlib.Core.Path.{subst}
use dpdk_cpp.Dpi.Rules.{
  CompiledDpiFilter, DpiResult, HsMatchContext, match_reported, new_context, no_result,
  on_hyperscan_match, result_of, scan,
}

-- No reported filter has a smaller priority than this.
pub data NoneBelow (filters : List CompiledDpiFilter) (best : ℕ) : List ℕ → Type 0 where
  no_ids : NoneBelow filters best []
  next_id :
      (id : ℕ) (ids : List ℕ)
      → ((f : CompiledDpiFilter) → get_elem? filters id ≡ some f → best ≤ f.priority)
      → NoneBelow filters best ids
      → NoneBelow filters best (id ∷ ids)

callback_bounds :
    (filters : List CompiledDpiFilter) (c : HsMatchContext) (id : ℕ)
    → ((on_hyperscan_match filters c id).best_priority ≤ c.best_priority)
      × ((f : CompiledDpiFilter)
          → get_elem? filters id ≡ some f
          → (on_hyperscan_match filters c id).best_priority ≤ f.priority)
unfolding on_hyperscan_match
callback_bounds filters c id = elim (Option-cases (get_elem? filters id)) [
  | inl none_e ↦ (ground arith, λ f e. ground arith)
  | inr (g, g_e) ↦ (ground arith, λ f e. ground arith)
]

scan_bound :
    (filters : List CompiledDpiFilter) (c : HsMatchContext) (ids : List ℕ)
    → (scan filters c ids).best_priority ≤ c.best_priority
unfolding scan
scan_bound filters c [] = omega arith
scan_bound filters c (id ∷ ids) = omega (
  arith,
  (callback_bounds filters c id).0,
  scan_bound filters (on_hyperscan_match filters c id) ids,
)

scan-NoneBelow :
    (filters : List CompiledDpiFilter) (c : HsMatchContext) (ids : List ℕ)
    → NoneBelow filters (scan filters c ids).best_priority ids
unfolding scan
scan-NoneBelow filters c [] = no_ids
scan-NoneBelow filters c (id ∷ ids) =
    next_id id ids
      (λ f e. omega (
        arith,
        (callback_bounds filters c id).1 f e,
        scan_bound filters (on_hyperscan_match filters c id) ids,
      ))
      (scan-NoneBelow filters (on_hyperscan_match filters c id) ids)

-- The matched filter, if there is one, has the best priority.
abbrev Holds : List CompiledDpiFilter → HsMatchContext → Type 0
Holds filters c =
    (f : CompiledDpiFilter)
    → get_elem? filters c.matched_filter_idx ≡ some f
    → f.priority ≡ c.best_priority

callback-Holds :
    (filters : List CompiledDpiFilter) (c : HsMatchContext) (id : ℕ)
    → Holds filters c
    → Holds filters (on_hyperscan_match filters c id)
unfolding on_hyperscan_match
callback-Holds filters c id h f e = elim (Option-cases (get_elem? filters id)) [
  | inl none_e ↦ ground (arith, h f)
  | inr (g, g_e) ↦ ground (arith, h f)
]

scan-Holds :
    (filters : List CompiledDpiFilter) (c : HsMatchContext) (ids : List ℕ)
    → Holds filters c
    → Holds filters (scan filters c ids)
unfolding scan
scan-Holds filters c [] h = h
scan-Holds filters c (id ∷ ids) h =
    scan-Holds filters (on_hyperscan_match filters c id) ids (callback-Holds filters c id h)

matched-priority :
    (filters : List CompiledDpiFilter) (c : HsMatchContext) (o : Option CompiledDpiFilter)
    → get_elem? filters c.matched_filter_idx ≡ o
    → Holds filters c
    → (elim o as (λ _. DpiResult) [ none ↦ no_result | some f ↦ result_of f ]).matched ≡ true
    → (elim o as (λ _. DpiResult) [ none ↦ no_result | some f ↦ result_of f ]).priority
      ≡ c.best_priority
matched-priority filters c none e h m = absurd (ground arith)
matched-priority filters c (some f) e h m = h f e

-- When `Match` reports a match for a hostname that Hyperscan has scanned, its result has a priority
-- that is not above that of any filter that was reported. The table has fewer than 2 ^ 32 filters,
-- so that no filter has the initial index.
pub match_reported-NoneBelow :
    (filters : List CompiledDpiFilter) (c : ℕ) (hostname ids : List ℕ)
    → get_elem? filters 4294967295 ≡ none
    → (match_reported filters (c ∷ hostname) (some ids)).matched ≡ true
    → NoneBelow filters (match_reported filters (c ∷ hostname) (some ids)).priority ids
unfolding match_reported
match_reported-NoneBelow filters c hostname ids few m =
    subst (λ p. NoneBelow filters p ids)
      (sym (
        matched-priority filters (scan filters new_context ids) _ refl
          (scan-Holds filters new_context ids (λ f e. ground arith)) m))
      (scan-NoneBelow filters new_context ids)
