-- ===== src/Tcp/Content.antt =====
-- Positions in the stream that the sender writes, and what a direction holds of it. `s i` is the byte
-- at position i, and position 0 has the sequence number `isn`.
use dpdk_cpp.Base.{
  ◌⊎◌, ℕ, zero, suc, ◌+◌, ◌-◌, ◌%◌, ◌^◌, ◌<◌, ◌≡◌, ap, true, false, List, [], ◌∷◌, ◌++◌, arith, ltb,
  ◌==◌, if◌then◌else◌, length, drop, All,
}
use dpdk_cpp.Tcp.Direction.{PendingSegment, DirectionState}
use dpdk_cpp.Tcp.Sequence.{
  Distance, same, ahead, behind, add32, seq_mod, sequence_distance, sequence_distance-eq,
}

-- The n bytes from position k on.
abbrev pub slice : (ℕ → ℕ) → ℕ → ℕ → List ℕ
slice s k zero = []
slice s k (suc n) = s k ∷ slice s (k + 1) n

pub slice-add : (s : ℕ → ℕ) (k m n : ℕ) → slice s k (m + n) ≡ slice s k m ++ slice s (k + m) n
slice-add s k zero n =
    let e : zero + n ≡ n = omega arith in let e' : k + zero ≡ k = omega arith in rw (e, e')
slice-add s k (suc m) n =
    let e : suc m + n ≡ suc (m + n) = omega arith in
    let e' : k + suc m ≡ k + 1 + m = omega arith in
    rw (e, e') (ap (◌∷◌ (s k)) (slice-add s (k + 1) m n))

pub drop-slice : (s : ℕ → ℕ) (t k n : ℕ) → drop t (slice s k n) ≡ slice s (k + t) (n - t)
drop-slice s zero k n =
    let e : n - zero ≡ n = omega arith in let e' : k + zero ≡ k = omega arith in rw (e, e')
drop-slice s (suc t) k zero = let e : zero - suc t ≡ zero = omega arith in rw e
drop-slice s (suc t) k (suc n) =
    let e : suc n - suc t ≡ n - t = omega arith in
    let e' : k + suc t ≡ k + 1 + t = omega arith in rw (e, e') (drop-slice s t (k + 1) n)

-- A segment that the sender's stream explains, in the first 2 ^ 31 bytes.
pub record Carries (s : ℕ → ℕ) (isn sequence : ℕ) (payload : List ℕ) : Type 0 where
  pub position : ℕ
  pub at_position : sequence ≡ add32 isn position
  pub limit : position + length payload < 2 ^ 31
  pub bytes : payload ≡ slice s position (length payload)

-- The contiguous bytes are those of the stream from the base sequence number on.
pub record HoldsStream (s : ℕ → ℕ) (isn : ℕ) (d : DirectionState) : Type 0 where
  pub known : d.base_known ≡ true
  pub first : ℕ
  pub base : d.base_sequence ≡ add32 isn first
  pub next : d.next_sequence ≡ add32 isn (first + length d.contiguous)
  pub limit : first + length d.contiguous < 2 ^ 31
  pub bytes : d.contiguous ≡ slice s first (length d.contiguous)

abbrev pub Queued : (ℕ → ℕ) → ℕ → List PendingSegment → Type 0
Queued s isn = All (λ p. Carries s isn p.sequence p.payload)

-- Before the base is known there are no contiguous bytes.
pub record Follows (s : ℕ → ℕ) (isn : ℕ) (d : DirectionState) : Type 0 where
  pub queued : Queued s isn d.pending
  pub state : HoldsStream s isn d ⊎ ((d.base_known ≡ false) × (d.contiguous ≡ []))

-- Positions below 2 ^ 31 are told apart, and compared, by their sequence numbers.
pub add32-injective : (isn k m : ℕ) → k < 2 ^ 31 → m < 2 ^ 31 → add32 isn k ≡ add32 isn m → k ≡ m
add32-injective isn k m hk hm e = omega arith

abbrev pub gap : ℕ → ℕ → Distance
gap k m = if k == m then same else if ltb m k then ahead (k - m) else behind (m - k)

pub sequence_distance-add32 :
    (isn k m : ℕ)
    → k < 2 ^ 31
    → m < 2 ^ 31
    → sequence_distance (add32 isn k) (add32 isn m) ≡ gap k m
sequence_distance-add32 isn k m hk hm = rw sequence_distance-eq (ground (arith, wrapped))
  where
    wrapped :
        (add32 isn k + seq_mod - add32 isn m) % seq_mod
        ≡ (if ltb k m then seq_mod - (m - k) else k - m)
    wrapped = ground arith
