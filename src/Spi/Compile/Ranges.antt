-- ===== src/Spi/Compile/Ranges.antt =====
-- The ranges of the parsing threads of `CompileRuleTable`.
use dpdk_cpp.Base.{ℕ, zero, suc, ◌+◌, ◌-◌, ◌/◌, ◌≤◌, ◌<◌, List, [], ◌∷◌, ◌≡◌, refl, sym, ap, arith}
use mathlib.Core.Path.{subst}
use dpdk_cpp.Spi.Compile.{parse_ranges, take_groups, worker_range}

take_groups_bounds :
    (counts : ℕ → ℕ) (max_end target rounds next assigned : ℕ)
    → next ≤ max_end
    → (next ≤ (take_groups counts max_end target rounds next assigned).0)
      × ((take_groups counts max_end target rounds next assigned).0 ≤ max_end)
unfolding take_groups
take_groups_bounds counts max_end target zero next assigned h = (omega arith, h)
take_groups_bounds counts max_end target (suc rounds) next assigned h =
    ground
      (arith, take_groups_bounds counts max_end target rounds (next + 1) (assigned + counts next))

worker_range_bounds :
    (counts : ℕ → ℕ) (max_end target start : ℕ)
    → start < max_end
    → (start < (worker_range counts max_end target start).0)
      × ((worker_range counts max_end target start).0 ≤ max_end)
unfolding worker_range
worker_range_bounds counts max_end target start h =
    ground (arith, take_groups_bounds counts max_end target (max_end - start) start 0)

-- Ranges that follow each other without a gap from a first group on, each with a group in it.
pub data Follow : ℕ → ℕ → List (ℕ × ℕ) → Type 0 where
  done : (next : ℕ) → Follow next next []
  range :
      (start end last : ℕ) (ranges : List (ℕ × ℕ))
      → start < end
      → Follow end last ranges
      → Follow start last ((start, end) ∷ ranges)

-- The rules of the groups before the n-th.
unfoldable pub rules_before : (ℕ → ℕ) → ℕ → ℕ
rules_before counts zero = 0
rules_before counts (suc n) = rules_before counts n + counts n

rules_before_next :
    (counts : ℕ → ℕ) (n : ℕ) → rules_before counts (n + 1) ≡ rules_before counts n + counts n
unfolding rules_before
rules_before_next counts n = ap (rules_before counts) one
  where
    one : n + 1 ≡ suc n
    one = omega arith

rules_before_le : (counts : ℕ → ℕ) (k n : ℕ) → rules_before counts n ≤ rules_before counts (n + k)
rules_before_le counts zero n = omega (arith, ap (rules_before counts) add_zero)
  where
    add_zero : n + 0 ≡ n
    add_zero = omega arith
rules_before_le counts (suc k) n = omega (
  arith,
  rules_before_le counts k (n + 1),
  rules_before_next counts n,
  ap (rules_before counts) add_suc,
)
  where
    add_suc : n + suc k ≡ n + 1 + k
    add_suc = omega arith

take_groups_sum :
    (counts : ℕ → ℕ) (max_end target rounds next assigned : ℕ)
    → (take_groups counts max_end target rounds next assigned).1 + rules_before counts next
      ≡ assigned + rules_before counts (take_groups counts max_end target rounds next assigned).0
unfolding take_groups
take_groups_sum counts max_end target zero next assigned = refl
take_groups_sum counts max_end target (suc rounds) next assigned = ground (
  arith,
  take_groups_sum counts max_end target rounds (next + 1) (assigned + counts next),
  rules_before_next counts next,
)

-- A worker whose target is all that is left takes it all.
take_groups_all :
    (counts : ℕ → ℕ) (max_end target rounds next assigned : ℕ)
    → next + rounds ≡ max_end
    → assigned + rules_before counts max_end ≤ target + rules_before counts next
    → (take_groups counts max_end target rounds next assigned).0 ≡ max_end
unfolding take_groups
take_groups_all counts max_end target zero next assigned e h = omega (arith, e)
take_groups_all counts max_end target (suc rounds) next assigned e h = ground (
  arith,
  take_groups_all counts max_end target rounds (next + 1) (assigned + counts next),
  rules_before_next counts next,
  rules_before_le counts rounds (next + 1),
  ap (rules_before counts) add_suc,
)
  where
    add_suc : next + 1 + rounds ≡ max_end
    add_suc = omega (arith, e)

worker_range_sum :
    (counts : ℕ → ℕ) (max_end target start : ℕ)
    → (worker_range counts max_end target start).1 + rules_before counts start
      ≡ rules_before counts (worker_range counts max_end target start).0
unfolding worker_range
worker_range_sum counts max_end target start = ground (
  arith,
  take_groups_sum counts max_end target (max_end - start) start 0,
  rules_before_next counts start,
)

worker_range_last :
    (counts : ℕ → ℕ) (total remaining start : ℕ)
    → start < total
    → remaining + rules_before counts start ≡ rules_before counts total
    → (worker_range counts (total - 0) ((remaining + 0) / 1) start).0 ≡ total
unfolding worker_range
worker_range_last counts total remaining start h e =
    ground (arith, take_groups_all counts total remaining (total - start) start 0)

parse_ranges_last :
    (counts : ℕ → ℕ) (total next remaining : ℕ)
    → next < total
    → remaining + rules_before counts next ≡ rules_before counts total
    → Follow next total (parse_ranges counts total 1 next remaining)
unfolding parse_ranges
parse_ranges_last counts total next remaining h e =
    subst (λ end. Follow next total ((next, end) ∷ []))
      (sym (worker_range_last counts total remaining next h e))
      (range next total total [] h (done total))

-- When the remaining rules are those of the groups from the next one on, and there is a worker at
-- least and at most one for each of these groups, the ranges follow each other from the next group to
-- the last without a gap or an overlap, and none is empty.
pub parse_ranges-Follow :
    (counts : ℕ → ℕ) (total others next remaining : ℕ)
    → next + suc others ≤ total
    → remaining + rules_before counts next ≡ rules_before counts total
    → Follow next total (parse_ranges counts total (suc others) next remaining)
unfolding parse_ranges
parse_ranges-Follow counts total zero next remaining h e =
    parse_ranges_last counts total next remaining (omega (arith, h)) e
parse_ranges-Follow counts total (suc others) next remaining h e =
    let target = (remaining + suc others) / suc (suc others) in
    let r = worker_range counts (total - suc others) target next in
    let bounds = worker_range_bounds counts (total - suc others) target next (omega (arith, h)) in
    range next r.0 total _ bounds.0 (
      parse_ranges-Follow counts total others r.0 (remaining - r.1) (omega (arith, bounds.1, h)) (
        omega (
          arith,
          e,
          worker_range_sum counts (total - suc others) target next,
          below r.0 (omega (arith, bounds.1, h)),
        )))
  where
    below : (n : ℕ) → n ≤ total → rules_before counts n ≤ rules_before counts total
    below n l = omega (arith, rules_before_le counts (total - n) n, ap (rules_before counts) sum)
      where
        sum : n + (total - n) ≡ total
        sum = omega (arith, l)
