-- ===== src/Dpi/HostnameCache/Reading.antt =====
-- Reading a hostname from the cache of include/dpdk/dpi/hostname_cache.hpp after an insertion.
use dpdk_cpp.Base.{
  ℕ, zero, suc, ◌+◌, true, false, List, [], ◌∷◌, Option, none, some, ◌≡◌, ◌≢◌, refl, sym, ap, ◌∙◌,
  arith, Option-cases, Bool-cases, inl, inr,
}
use native.Mathlib.Decide.{ℕ_discrete}
use dpdk_cpp.Dpi.HostnameCache.{
  Entry, hash32, insert, insert_from, is_hit, lookup, lookup_from, put, put_written, slot, written,
}
use dpdk_cpp.Dpi.HostnameCache.Writing.{
  insert_from-written, insert_from_pass, insert_from_stop, written-is_hit, written-none,
}

lookup_from_hit :
    (slots : ℕ → Entry) (hash : ℕ) (h : List ℕ) (g probe rounds : ℕ)
    → is_hit (slots (slot hash probe)) hash h g ≡ true
    → lookup_from slots hash h g probe (suc rounds) ≡ (slots (slot hash probe)).filter_index
unfolding lookup_from
lookup_from_hit slots hash h g probe rounds e = rw (e, lookup_from) refl

lookup_from_miss :
    (slots : ℕ → Entry) (hash : ℕ) (h : List ℕ) (g probe rounds : ℕ)
    → is_hit (slots (slot hash probe)) hash h g ≡ false
    → lookup_from slots hash h g probe (suc rounds) ≡ lookup_from slots hash h g (probe + 1) rounds
unfolding lookup_from
lookup_from_miss slots hash h g probe rounds e = rw (e, lookup_from) refl

option_apart : (entry : Entry) → none ≢ some entry
option_apart entry p = ground arith

pair_of :
    {i j : ℕ} {v w : Entry}
    → ◌≡◌ {A = Option (ℕ × Entry)} (some (i, v)) (some (j, w))
    → (i ≡ j) × (v ≡ w)
pair_of e = ground arith

bool_apart : false ≢ true
bool_apart p = ground arith

put_same : (slots : ℕ → Entry) (i j : ℕ) (entry : Entry) → i ≡ j → put slots i entry j ≡ entry
put_same slots i j entry e = ground arith

put_apart : (slots : ℕ → Entry) (i j : ℕ) (entry : Entry) → i ≢ j → put slots i entry j ≡ slots j
put_apart slots i j entry n = ground arith

-- A written slot is found by the probes that start where those of `Insert` did.
lookup_from-insert_from :
    (slots : ℕ → Entry) (hash : ℕ) (h : List ℕ) (f g probe rounds i : ℕ) (entry : Entry)
    → hash ≢ 0
    → insert_from slots hash h f g probe rounds ≡ some (i, entry)
    → lookup_from (put slots i entry) hash h g probe rounds ≡ f
unfolding insert_from
lookup_from-insert_from slots hash h f g probe zero i entry n e = absurd (ground arith)
lookup_from-insert_from slots hash h f g probe (suc rounds) i entry n e =
    elim (Option-cases (written (slots (slot hash probe)) hash h f g)) [
      | inl pass ↦
          lookup_from_miss (put slots i entry) hash h g probe rounds (passed pass)
          ∙ lookup_from-insert_from slots hash h f g (probe + 1) rounds i entry n
              (sym (insert_from_pass slots hash h f g probe rounds pass) ∙ e)
      | inr (v, stop) ↦
          stopped v stop (pair_of (sym (insert_from_stop slots hash h f g probe rounds v stop) ∙ e))
    ]
  where
    passed :
        written (slots (slot hash probe)) hash h f g ≡ none
        → is_hit (put slots i entry (slot hash probe)) hash h g ≡ false
    passed pass =
        ap (λ x. is_hit x hash h g) (put_apart slots i (slot hash probe) entry apart)
        ∙ written-none (slots (slot hash probe)) hash h f g pass
      where
        apart : i ≢ slot hash probe
        apart p = option_apart entry (
            sym pass
            ∙ ap (λ j. written (slots j) hash h f g) (sym p)
            ∙ insert_from-written slots hash h f g probe (suc rounds) i entry e)

    stopped :
        (v : Entry)
        → written (slots (slot hash probe)) hash h f g ≡ some v
        → (slot hash probe ≡ i) × (v ≡ entry)
        → lookup_from (put slots i entry) hash h g probe (suc rounds) ≡ f
    stopped v stop p =
        lookup_from_hit (put slots i entry) hash h g probe rounds
          (ap (λ x. is_hit x hash h g) put_entry ∙ hit.0)
        ∙ ap (λ x. x.filter_index) put_entry
        ∙ hit.1
      where
        hit : (is_hit v hash h g ≡ true) × (v.filter_index ≡ f)
        hit = written-is_hit (slots (slot hash probe)) v hash h f g n stop

        put_entry : put slots i entry (slot hash probe) ≡ v
        put_entry = put_same slots i (slot hash probe) entry (sym p.0) ∙ sym p.1

-- A hostname whose hash is not 0, inserted while one of its four slots is empty or already its own,
-- is looked up with the index and under the generation that it was inserted with.
pub lookup-insert_stored :
    (slots : ℕ → Entry) (h : List ℕ) (f g i : ℕ) (entry : Entry)
    → h ≢ []
    → hash32 h ≢ 0
    → insert_from slots (hash32 h) h f g 0 4 ≡ some (i, entry)
    → lookup (insert slots h f g) h g ≡ f
unfolding lookup insert
lookup-insert_stored slots [] f g i entry l n e = absurd (l refl)
lookup-insert_stored slots (c ∷ h) f g i entry l n e =
    ap (λ w. lookup (put_written slots w) (c ∷ h) g) e
    ∙ lookup_from-insert_from slots (hash32 (c ∷ h)) (c ∷ h) f g 0 4 i entry n e

-- A slot written for one hash is no hit for another.
other_hash :
    (entry entry' : Entry) (hash hash' : ℕ) (h j : List ℕ) (f g gen : ℕ)
    → hash' ≢ hash
    → written entry hash h f g ≡ some entry'
    → (is_hit entry hash' j gen ≡ false) × (is_hit entry' hash' j gen ≡ false)
unfolding written is_hit
other_hash entry entry' hash hash' h j f g gen n e = ground arith

is_hit-put :
    (slots : ℕ → Entry) (hash : ℕ) (h : List ℕ) (g i j : ℕ) (entry : Entry)
    → is_hit (slots i) hash h g ≡ false
    → is_hit entry hash h g ≡ false
    → is_hit (put slots i entry j) hash h g ≡ is_hit (slots j) hash h g
is_hit-put slots hash h g i j entry a b = elim (ℕ_discrete i j) [
  | yes e ↦
      ap (λ x. is_hit x hash h g) (put_same slots i j entry e)
      ∙ b
      ∙ sym a
      ∙ ap (λ k. is_hit (slots k) hash h g) e
  | no n ↦ ap (λ x. is_hit x hash h g) (put_apart slots i j entry n)
]

put_index :
    (slots : ℕ → Entry) (hash : ℕ) (h : List ℕ) (g i j : ℕ) (entry : Entry)
    → is_hit (slots i) hash h g ≡ false
    → is_hit (slots j) hash h g ≡ true
    → (put slots i entry j).filter_index ≡ (slots j).filter_index
put_index slots hash h g i j entry a b = ap (λ x. x.filter_index) (put_apart slots i j entry apart)
  where
    apart : i ≢ j
    apart e = bool_apart (sym a ∙ ap (λ k. is_hit (slots k) hash h g) e ∙ b)

lookup_from-put_other :
    (slots : ℕ → Entry) (hash : ℕ) (j : List ℕ) (gen i probe rounds : ℕ) (entry : Entry)
    → is_hit (slots i) hash j gen ≡ false
    → is_hit entry hash j gen ≡ false
    → lookup_from (put slots i entry) hash j gen probe rounds
      ≡ lookup_from slots hash j gen probe rounds
unfolding lookup_from
lookup_from-put_other slots hash j gen i probe zero entry a b = refl
lookup_from-put_other slots hash j gen i probe (suc rounds) entry a b =
    elim (Bool-cases (is_hit (slots (slot hash probe)) hash j gen)) [
      | inl hit ↦
          lookup_from_hit (put slots i entry) hash j gen probe rounds
            (is_hit-put slots hash j gen i (slot hash probe) entry a b ∙ hit)
          ∙ put_index slots hash j gen i (slot hash probe) entry a hit
          ∙ sym (lookup_from_hit slots hash j gen probe rounds hit)
      | inr miss ↦
          lookup_from_miss (put slots i entry) hash j gen probe rounds
            (is_hit-put slots hash j gen i (slot hash probe) entry a b ∙ miss)
          ∙ lookup_from-put_other slots hash j gen i (probe + 1) rounds entry a b
          ∙ sym (lookup_from_miss slots hash j gen probe rounds miss)
    ]

put_written_other :
    (slots : ℕ → Entry) (h j : List ℕ) (hash hash' f g gen : ℕ) (w : Option (ℕ × Entry))
    → hash' ≢ hash
    → insert_from slots hash h f g 0 4 ≡ w
    → lookup_from (put_written slots w) hash' j gen 0 4 ≡ lookup_from slots hash' j gen 0 4
put_written_other slots h j hash hash' f g gen none n e = refl
put_written_other slots h j hash hash' f g gen (some (i, entry)) n e =
    let apart =
      other_hash (slots i) entry hash hash' h j f g gen n
        (insert_from-written slots hash h f g 0 4 i entry e) in
    lookup_from-put_other slots hash' j gen i 0 4 entry apart.0 apart.1

-- Inserting one hostname changes no lookup of a hostname with another hash, under any generation.
pub lookup-insert_other_hash :
    (slots : ℕ → Entry) (h j : List ℕ) (f g gen : ℕ)
    → hash32 j ≢ hash32 h
    → lookup (insert slots h f g) j gen ≡ lookup slots j gen
unfolding lookup insert
lookup-insert_other_hash slots [] j f g gen n = refl
lookup-insert_other_hash slots (c ∷ h) [] f g gen n = refl
lookup-insert_other_hash slots (c ∷ h) (d ∷ j) f g gen n =
    put_written_other slots (c ∷ h) (d ∷ j) (hash32 (c ∷ h)) (hash32 (d ∷ j)) f g gen _ n refl
