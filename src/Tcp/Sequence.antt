-- ===== src/Tcp/Sequence.antt =====
-- Modular sequence numbers of include/dpdk/spi/spi_tcp_reassembly.cpp. A `std::uint32_t` is a number
-- below `seq_mod`; an `std::int32_t` distance is a sign and a magnitude.
use dpdk_cpp.Base.{
  ℕ, zero, suc, ◌+◌, ◌-◌, ◌%◌, ◌^◌, ◌<◌, ◌≡◌, refl, arith, ltb, ◌==◌, if◌then◌else◌,
}

abbrev pub seq_mod : ℕ
seq_mod = 2 ^ 32

-- The result of a signed comparison with zero: `behind d` is the distance -d.
pub data Distance : Type 0 where
  same : Distance
  ahead : ℕ → Distance
  behind : ℕ → Distance

-- `lhs + rhs` on `std::uint32_t`.
abbrev pub add32 : ℕ → ℕ → ℕ
add32 a b = (a + b) % seq_mod

classify : ℕ → Distance
classify zero = same
classify (suc d) = if ltb (suc d) (2 ^ 31) then ahead (suc d) else behind (seq_mod - suc d)

-- `static_cast<std::int32_t>(lhs - rhs)`.
unfoldable pub sequence_distance : ℕ → ℕ → Distance
unfolding classify
sequence_distance lhs rhs = classify ((lhs + seq_mod - rhs) % seq_mod)

-- The same by tests instead of a match.
abbrev pub distance_of : ℕ → Distance
distance_of n = if n == 0 then same else if ltb n (2 ^ 31) then ahead n else behind (seq_mod - n)

classify-eq : (n : ℕ) → classify n ≡ distance_of n
unfolding classify
classify-eq zero = refl
classify-eq (suc n) = ground arith

pub sequence_distance-eq :
    (l r : ℕ) → sequence_distance l r ≡ distance_of ((l + seq_mod - r) % seq_mod)
unfolding sequence_distance
sequence_distance-eq l r = classify-eq ((l + seq_mod - r) % seq_mod)

pub sequence_distance_self : (l : ℕ) → l < seq_mod → sequence_distance l l ≡ same
sequence_distance_self l h =
    let e : (l + seq_mod - l) % seq_mod ≡ 0 = omega arith in rw (sequence_distance-eq l l, e)
