-- ===== src/Tcp/Streams/Map.antt =====
-- The map of streams: what finding, erasing, updating and purging do to the bytes and the bounds.
use dpdk_cpp.Base.{
  ℕ, ◌+◌, ◌≤◌, ◌≡◌, refl, true, List, [], ◌∷◌, some, arith, length, All, Bool-cases, inl, inr,
  list_eq_self,
}
use dpdk_cpp.Packet.{ipv4, ipv6, IpVersion}
use dpdk_cpp.Tcp.Key.{StreamKey, stream_key_eq, Endpoint, endpoint_eq, version_eq}
use dpdk_cpp.Tcp.Streams.{StreamState, state_bytes, account_remove, purge, find, erase, update}

abbrev pub Entry : Type 0
Entry = StreamKey × StreamState

abbrev pub total_bytes : List Entry → ℕ
total_bytes [] = 0
total_bytes ((k, s) ∷ rest) = state_bytes s + total_bytes rest

version_eq_self : (v : IpVersion) → version_eq v v ≡ true
unfolding version_eq
version_eq_self ipv4 = refl
version_eq_self ipv6 = refl

endpoint_eq_self : (e : Endpoint) → endpoint_eq e e ≡ true
unfolding endpoint_eq
endpoint_eq_self e = ground (arith, list_eq_self e.address)

pub stream_key_eq_self : (k : StreamKey) → stream_key_eq k k ≡ true
unfolding stream_key_eq
stream_key_eq_self k =
    ground (arith, endpoint_eq_self k.first, endpoint_eq_self k.second, version_eq_self k.version)

module _ (key : StreamKey) where
  pub total_bytes-erase :
      (ss : List Entry) (s : StreamState)
      → find key ss ≡ some s
      → total_bytes ss ≡ state_bytes s + total_bytes (erase key ss)
  unfolding find erase
  total_bytes-erase [] s h = cc
  total_bytes-erase ((k, x) ∷ ss) s h = ground (arith, total_bytes-erase ss s)

  pub total_bytes-update :
      (ss : List Entry) (s v : StreamState)
      → find key ss ≡ some s
      → total_bytes (update key v ss) + state_bytes s ≡ total_bytes ss + state_bytes v
  unfolding find update
  total_bytes-update [] s v h = cc
  total_bytes-update ((k, x) ∷ ss) s v h = ground (arith, total_bytes-update ss s v)

  pub length-erase-le : (ss : List Entry) → length (erase key ss) ≤ length ss
  unfolding erase
  length-erase-le [] = omega arith
  length-erase-le ((k, x) ∷ ss) = ground (arith, length-erase-le ss)

  pub length-update : (ss : List Entry) (v : StreamState) → length (update key v ss) ≡ length ss
  unfolding update
  length-update [] v = refl
  length-update ((k, x) ∷ ss) v = ground (arith, length-update ss v)

  module _ (P : Entry → Type 0) where
    pub All-erase : (ss : List Entry) → All P ss → All P (erase key ss)
    unfolding erase
    All-erase [] h = tt
    All-erase ((k, x) ∷ ss) h = ground (arith, All-erase ss h.1, h.1, h.0)

  module _ (P : StreamState → Type 0) where
    pub All-update :
        (ss : List Entry) (v : StreamState)
        → All (λ e. P e.1) ss
        → P v
        → All (λ e. P e.1) (update key v ss)
    unfolding update
    All-update [] v h p = tt
    All-update ((k, x) ∷ ss) v h p = ground (arith, All-update ss v h.1 p, h.0, h.1)

    pub All-find :
        (ss : List Entry) (s : StreamState) → All (λ e. P e.1) ss → find key ss ≡ some s → P s
    unfolding find
    All-find [] s h e = cc
    All-find ((k, x) ∷ ss) s h e = elim (Bool-cases (stream_key_eq k key)) [
      | inl hit ↦ let same : x ≡ s = ground arith in rw same at h.0
      | inr miss ↦ All-find ss s h.1 (simp miss at e)
    ]

module _ (timeout now : ℕ) where
  -- `other` bytes belong to streams outside the list.
  pub total_bytes-purge :
      (ss : List Entry) (other buffered : ℕ)
      → buffered ≡ other + total_bytes ss
      → (purge timeout now buffered ss).0 ≡ other + total_bytes (purge timeout now buffered ss).1
  unfolding purge
  total_bytes-purge [] other buffered e = e
  total_bytes-purge ((k, s) ∷ ss) other buffered e = ground (
    arith,
    total_bytes-purge ss other (account_remove buffered s),
    total_bytes-purge ss (other + state_bytes s) buffered,
  )

  pub length-purge-le :
      (ss : List Entry) (buffered : ℕ) → length (purge timeout now buffered ss).1 ≤ length ss
  unfolding purge
  length-purge-le [] buffered = omega arith
  length-purge-le ((k, s) ∷ ss) buffered =
      ground (arith, length-purge-le ss (account_remove buffered s), length-purge-le ss buffered)

  pub purge-le : (ss : List Entry) (buffered : ℕ) → (purge timeout now buffered ss).0 ≤ buffered
  unfolding purge
  purge-le [] buffered = omega arith
  purge-le ((k, s) ∷ ss) buffered =
      ground (arith, purge-le ss (account_remove buffered s), purge-le ss buffered)

  pub All-purge :
      (P : Entry → Type 0) (ss : List Entry) (buffered : ℕ)
      → All P ss
      → All P (purge timeout now buffered ss).1
  unfolding purge
  All-purge P [] buffered h = tt
  All-purge P ((k, s) ∷ ss) buffered h =
      ground
        (arith, All-purge P ss (account_remove buffered s) h.1, All-purge P ss buffered h.1, h.0)
