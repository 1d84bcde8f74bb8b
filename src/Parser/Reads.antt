-- ===== src/Parser/Reads.antt =====
-- Reads from the byte spans of include/dpdk/spi/spi_packet_parser.cpp. A span does not check its
-- index, so a read outside of it is undefined behaviour there; here it is an outcome of its own.
use dpdk_cpp.Base.{
  ℕ, zero, suc, ◌+◌, ◌*◌, ◌<◌, ◌≤◌, Bool, true, false, List, [], ◌∷◌, Option, none, some, ◌≡◌, refl,
  sym, ◌∙◌, arith, ◌==◌, if◌then◌else◌, length, get_elem?,
}

pub data Checked {ℓ} (A : Type ℓ) : Type ℓ where
  ok : A → Checked A
  out_of_bounds : Checked A

infixl 5 ◌>>=◌
abbrev pub ◌>>=◌ {ℓ κ} : {A : Type ℓ} {B : Type κ} → Checked A → (A → Checked B) → Checked B
ok a >>= f = f a
out_of_bounds >>= f = out_of_bounds

abbrev pub in_span {ℓ} : {A : Type ℓ} → Option A → Checked A
in_span none = out_of_bounds
in_span (some a) = ok a

-- `data[i]`.
unfoldable pub read : List ℕ → ℕ → Checked ℕ
read bytes i = in_span (get_elem? bytes i)

-- `ReadUint16Be`.
unfoldable pub read_uint16_be : List ℕ → ℕ → Checked ℕ
unfolding read
read_uint16_be bytes offset = do
  high ← read bytes offset
  low ← read bytes (offset + 1)
  ok (high * 256 + low)

-- Whether the bytes from an offset on are those of a text; like `&&`, it reads on only while they are.
unfoldable pub is_text_at : List ℕ → ℕ → List ℕ → Checked Bool
unfolding read
is_text_at bytes offset [] = ok true
is_text_at bytes offset (c ∷ text) = do
  b ← read bytes offset
  let rest = is_text_at bytes (offset + 1) text
  if b == c then rest else ok false

-- A computation stays in bounds and its result has a property.
abbrev pub Returns {ℓ} : {A : Type ℓ} → (A → Type 0) → Checked A → Type 0
Returns P (ok a) = P a
Returns P out_of_bounds = ⊥

pub Returns-bind {ℓ κ} :
    {A : Type ℓ} {B : Type κ} (P : A → Type 0) (Q : B → Type 0) (m : Checked A) (f : A → Checked B)
    → Returns P m
    → ((a : A) → P a → Returns Q (f a))
    → Returns Q (m >>= f)
Returns-bind P Q (ok a) f h k = k a h
Returns-bind P Q out_of_bounds f h k = h

pub Returns-map {ℓ} :
    {A : Type ℓ} (P Q : A → Type 0) (m : Checked A)
    → ((a : A) → P a → Q a)
    → Returns P m
    → Returns Q m
Returns-map P Q (ok a) h k = h a k
Returns-map P Q out_of_bounds h k = k

pub Returns-elim {ℓ} :
    {A : Type ℓ} (P : A → Type 0) (b : Bool) (x y : Checked A)
    → (b ≡ true → Returns P x)
    → (b ≡ false → Returns P y)
    → Returns P (elim b [ true ↦ x | false ↦ y ])
Returns-elim P true x y h k = h refl
Returns-elim P false x y h k = k refl

pub bind_cong {ℓ κ} :
    {A : Type ℓ} {B : Type κ} (m : Checked A) (f g : A → Checked B)
    → ((a : A) → f a ≡ g a)
    → (m >>= f) ≡ (m >>= g)
bind_cong (ok a) f g h = h a
bind_cong out_of_bounds f g h = refl

abbrev pub Any {ℓ} : {A : Type ℓ} → A → Type 0
Any a = Unit {0}

in_span-Returns :
    (bytes : List ℕ) (i : ℕ)
    → i < length bytes
    → Returns (λ b. get_elem? bytes i ≡ some b) (in_span (get_elem? bytes i))
in_span-Returns [] i h = absurd (omega arith)
in_span-Returns (x ∷ bytes) zero h = refl
in_span-Returns (x ∷ bytes) (suc i) h = in_span-Returns bytes i (omega arith)

pub read-Returns :
    (bytes : List ℕ) (i : ℕ)
    → i < length bytes
    → Returns (λ b. get_elem? bytes i ≡ some b) (read bytes i)
unfolding read
read-Returns bytes i h = in_span-Returns bytes i h

pub read_uint16_be-Returns :
    (bytes : List ℕ) (i : ℕ) → i + 2 ≤ length bytes → Returns Any (read_uint16_be bytes i)
unfolding read_uint16_be
read_uint16_be-Returns bytes i h =
    Returns-bind _ Any (read bytes i) _ (read-Returns bytes i (omega arith)) λ high _.
      Returns-bind _ Any (read bytes (i + 1)) _ (read-Returns bytes (i + 1) (omega arith))
        λ low _. tt

-- The bytes from an offset on are those of a text.
abbrev pub TextAt : List ℕ → ℕ → List ℕ → Type 0
TextAt bytes offset [] = Unit
TextAt bytes offset (c ∷ text) = (get_elem? bytes offset ≡ some c) × TextAt bytes (offset + 1) text

abbrev pub Decides : Type 0 → Bool → Type 0
Decides P true = P
Decides P false = P → ⊥

byte_apart : {b c : ℕ} → ◌≡◌ {A = Option ℕ} (some b) (some c) → (b == c) ≡ false → ⊥
byte_apart e s = ground arith

pub is_text_at-Decides :
    (bytes : List ℕ) (offset : ℕ) (text : List ℕ)
    → offset + length text ≤ length bytes
    → Returns (Decides (TextAt bytes offset text)) (is_text_at bytes offset text)
unfolding is_text_at
is_text_at-Decides bytes offset [] h = tt
is_text_at-Decides bytes offset (c ∷ text) h =
    Returns-bind _ (Decides (TextAt bytes offset (c ∷ text))) (read bytes offset) _
      (read-Returns bytes offset (omega arith))
      λ b e. decide (b == c) refl e (is_text_at-Decides bytes (offset + 1) text (omega arith))
  where
    step :
        get_elem? bytes offset ≡ some c
        → (rest : Bool) → Decides (TextAt bytes (offset + 1) text) rest
        → Decides (TextAt bytes offset (c ∷ text)) rest
    step e true d = (e, d)
    step e false d = λ all. d all.1

    decide :
        {b : ℕ} (same : Bool)
        → (b == c) ≡ same
        → get_elem? bytes offset ≡ some b
        → Returns (Decides (TextAt bytes (offset + 1) text)) (is_text_at bytes (offset + 1) text)
        → Returns
            (Decides (TextAt bytes offset (c ∷ text)))
            (if same then is_text_at bytes (offset + 1) text else ok false)
    decide true s e ih = Returns-map _ _ _ (step (ground arith)) ih
    decide false s e ih = λ all. byte_apart (sym e ∙ all.0) s
