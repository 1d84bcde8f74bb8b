-- ===== src/Pipeline/Routes/Pairs.antt =====
-- The pairing of ports in include/dpdk/spi/spi_pipeline.cpp.
use dpdk_cpp.Base.{
  ℕ, zero, suc, ◌+◌, ◌-◌, ◌%◌, ◌<◌, ◌≤◌, Bool, true, false, List, [], ◌∷◌, Option, none, some, ltb,
  leb, ◌==◌, if◌then◌else◌, length, get_or, ◌≡◌, refl, ap, ◌∙◌, arith, Bool-cases, Option-cases,
  inl, inr, IsDistinct, Absent,
}
use mathlib.Core.Path.{subst}
use native.Mathlib.Decide.{ℕ_discrete}
use dpdk_cpp.Pipeline.Routes.{index_of, paired, get_transmit_port}

abbrev Found : List ℕ → ℕ → Option ℕ → Type 0
Found ports port none = Unit
Found ports port (some i) = (i < length ports) × (get_or ports i 0 ≡ port)

index_of-Found : (ports : List ℕ) (port : ℕ) → Found ports port (index_of ports port)
unfolding index_of
index_of-Found [] port = tt
index_of-Found (p ∷ ports) port =
    head (p == port) refl (index_of ports port) (index_of-Found ports port)
  where
    head :
        (same : Bool)
        → (p == port) ≡ same
        → (rest : Option ℕ) → Found ports port rest
        → Found
            (p ∷ ports)
            port
            (if same then some 0 else elim rest [ none ↦ none | some i ↦ some (suc i) ])
    head true e rest h = (omega arith, ground arith)
    head false e none h = tt
    head false e (some i) (h, h') = (omega arith, h')

Absent-get_or :
    (port : ℕ) (ports : List ℕ) (i : ℕ)
    → Absent port ports
    → i < length ports
    → (port == get_or ports i 0) ≡ false
Absent-get_or port [] i h k = absurd (omega arith)
Absent-get_or port (p ∷ ports) zero h k = ground (arith, h.0)
Absent-get_or port (p ∷ ports) (suc i) h k = Absent-get_or port ports i h.1 (omega arith)

index_of-get_or :
    (ports : List ℕ) (i : ℕ)
    → IsDistinct ports
    → i < length ports
    → index_of ports (get_or ports i 0) ≡ some i
unfolding index_of
index_of-get_or [] i d h = absurd (omega arith)
index_of-get_or (p ∷ ports) zero d h = rw (same, index_of) refl
  where
    same : (p == p) ≡ true
    same = ground arith
index_of-get_or (p ∷ ports) (suc i) d h =
    rw (Absent-get_or p ports i d.0 (omega arith), index_of)
      (rw (index_of-get_or ports i d.1 (omega arith)) refl)

get_transmit_port_few :
    (ports : List ℕ) (port : ℕ) → leb (length ports) 1 ≡ true → get_transmit_port ports port ≡ port
unfolding get_transmit_port
get_transmit_port_few ports port e = rw (e, get_transmit_port) refl

get_transmit_port-none :
    (ports : List ℕ) (port : ℕ) → index_of ports port ≡ none → get_transmit_port ports port ≡ port
unfolding get_transmit_port
get_transmit_port-none ports port e = elim (Bool-cases (leb (length ports) 1)) [
  | inl few ↦ get_transmit_port_few ports port few
  | inr many ↦ rw (many, e, get_transmit_port) refl
]

get_transmit_port_at :
    (ports : List ℕ) (port i : ℕ)
    → leb (length ports) 1 ≡ false
    → index_of ports port ≡ some i
    → get_transmit_port ports port ≡ paired ports port i
unfolding get_transmit_port
get_transmit_port_at ports port i e e' = rw (e, e', get_transmit_port) refl

paired_next :
    (ports : List ℕ) (port i : ℕ)
    → i % 2 ≡ 0
    → i + 1 < length ports
    → paired ports port i ≡ get_or ports (suc i) 0
unfolding paired
paired_next ports port i e h = rw (even, fits, next, paired) refl
  where
    even : (i % 2 == 0) ≡ true
    even = ground arith

    fits : ltb (i + 1) (length ports) ≡ true
    fits = ground arith

    next : i + 1 ≡ suc i
    next = omega arith

paired_previous :
    (ports : List ℕ) (port i : ℕ) → i % 2 ≡ 1 → paired ports port i ≡ get_or ports (i - 1) 0
unfolding paired
paired_previous ports port i e = rw (odd, paired) refl
  where
    odd : (i % 2 == 0) ≡ false
    odd = ground arith

paired_last :
    (ports : List ℕ) (port i : ℕ) → i % 2 ≡ 0 → length ports ≤ i + 1 → paired ports port i ≡ port
unfolding paired
paired_last ports port i e h = rw (even, last, paired) refl
  where
    even : (i % 2 == 0) ≡ true
    even = ground arith

    last : ltb (i + 1) (length ports) ≡ false
    last = ground arith

module _ (ports : List ℕ) (distinct : IsDistinct ports) (many : leb (length ports) 1 ≡ false) where
  -- The port at an index, looked up again.
  at_index :
      (i j : ℕ)
      → j < length ports
      → i ≡ j
      → get_transmit_port ports (get_or ports i 0) ≡ paired ports (get_or ports i 0) j
  at_index i j h e =
      rw e
        (get_transmit_port_at ports (get_or ports j 0) j many (index_of-get_or ports j distinct h))

  back_from_next :
      (port i : ℕ)
      → i % 2 ≡ 0
      → suc i < length ports
      → get_or ports i 0 ≡ port
      → get_transmit_port ports (paired ports port i) ≡ port
  back_from_next port i e h e' =
      ap (get_transmit_port ports) (paired_next ports port i e (omega arith))
      ∙ at_index (suc i) (suc i) h refl
      ∙ paired_previous ports (get_or ports (suc i) 0) (suc i) (omega arith)
      ∙ ap (λ k. get_or ports k 0) less
      ∙ e'
    where
      less : suc i - 1 ≡ i
      less = omega arith

  back_from_previous :
      (port i : ℕ)
      → i % 2 ≡ 1
      → i < length ports
      → get_or ports i 0 ≡ port
      → get_transmit_port ports (paired ports port i) ≡ port
  back_from_previous port i e h e' =
      ap (get_transmit_port ports) (paired_previous ports port i e)
      ∙ at_index (i - 1) (i - 1) (omega arith) refl
      ∙ paired_next ports (get_or ports (i - 1) 0) (i - 1) (omega arith) (omega arith)
      ∙ ap (λ k. get_or ports k 0) more
      ∙ e'
    where
      more : suc (i - 1) ≡ i
      more = omega arith

  back :
      (port i : ℕ)
      → index_of ports port ≡ some i
      → i < length ports
      → get_or ports i 0 ≡ port
      → get_transmit_port ports (paired ports port i) ≡ port
  back port i e h e' = elim (ℕ_discrete (i % 2) 0) [
    | no odd ↦ back_from_previous port i (omega arith) h e'
    | yes even ↦ elim (ℕ_discrete (suc i) (length ports)) [
      | no inner ↦ back_from_next port i even (omega arith) e'
      | yes last ↦
          ap (get_transmit_port ports) (paired_last ports port i even (omega arith))
          ∙ get_transmit_port_at ports port i many e
          ∙ paired_last ports port i even (omega arith)
    ]
  ]

-- If no port is listed twice, transmit ports are paired: a packet received on the transmit port of
-- any port, listed or not, is transmitted on that port.
pub get_transmit_port_twice :
    (ports : List ℕ) (port : ℕ)
    → IsDistinct ports
    → get_transmit_port ports (get_transmit_port ports port) ≡ port
get_transmit_port_twice ports port d = elim (Bool-cases (leb (length ports) 1)) [
  | inl few ↦
      ap (get_transmit_port ports) (get_transmit_port_few ports port few)
      ∙ get_transmit_port_few ports port few
  | inr many ↦ elim (Option-cases (index_of ports port)) [
    | inl absent ↦
        ap (get_transmit_port ports) (get_transmit_port-none ports port absent)
        ∙ get_transmit_port-none ports port absent
    | inr (i, e) ↦
        ap (get_transmit_port ports) (get_transmit_port_at ports port i many e)
        ∙ found many i e
            (subst (λ (o : Option ℕ). Found ports port o) e (index_of-Found ports port))
  ]
]
  where
    found :
        leb (length ports) 1 ≡ false
        → (i : ℕ) → index_of ports port ≡ some i
        → Found ports port (some i)
        → get_transmit_port ports (paired ports port i) ≡ port
    found many i e (h, h') = back ports d many port i e h h'
