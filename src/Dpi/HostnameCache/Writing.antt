-- ===== src/Dpi/HostnameCache/Writing.antt =====
-- What an insertion into the cache of include/dpdk/dpi/hostname_cache.hpp writes, and where.
use dpdk_cpp.Base.{
  ℕ, zero, suc, ◌+◌, ◌-◌, ◌≤◌, true, false, List, [], ◌∷◌, ◌++◌, none, some, ◌≡◌, ◌≢◌, refl, sym,
  ap, ◌∙◌, arith, Option-cases, Bool-cases, inl, inr, length, take, replicate, list_eq_self, ltb,
}
use dpdk_cpp.Dpi.HostnameCache.{
  Entry, first4, insert_from, is_hit, key_matches, next8, padded, slot, store_entry, written,
}

take-append_own {ℓ} : {A : Type ℓ} (xs ys : List A) → take (length xs) (xs ++ ys) ≡ xs
take-append_own [] ys = refl
take-append_own (x ∷ xs) ys = ap (λ zs. x ∷ zs) (take-append_own xs ys)

padded_full : (h : List ℕ) → 4 ≤ length h → padded 4 (first4 h) ≡ first4 h
padded_full [] e = absurd (omega (arith, e))
padded_full (a ∷ []) e = absurd (omega (arith, e))
padded_full (a ∷ b ∷ []) e = absurd (omega (arith, e))
padded_full (a ∷ b ∷ c ∷ []) e = absurd (omega (arith, e))
padded_full (a ∷ b ∷ c ∷ d ∷ h) e = refl

-- An entry matches the hostname that it was stored for.
pub key_matches-store_entry :
    (hash : ℕ) (h : List ℕ) (f g : ℕ) → key_matches (store_entry hash h f g) h ≡ true
unfolding key_matches store_entry
key_matches-store_entry hash h f g = elim (Bool-cases (ltb (length h) 4)) [
  | inl e ↦ rw e refl
  | inr e ↦ ground (
    arith,
    padded_full h (ground arith),
    list_eq_self (first4 h),
    take-append_own (next8 h) (replicate (8 - length (next8 h)) 0),
    list_eq_self (next8 h),
  )
]

-- What `Insert` writes is a hit for the hostname, the generation and the index written.
pub written-is_hit :
    (entry entry' : Entry) (hash : ℕ) (h : List ℕ) (f g : ℕ)
    → hash ≢ 0
    → written entry hash h f g ≡ some entry'
    → (is_hit entry' hash h g ≡ true) × (entry'.filter_index ≡ f)
unfolding written is_hit
written-is_hit entry entry' hash h f g n e = ground (arith, key_matches-store_entry hash h f g)

-- A slot that `Insert` passes is no hit.
pub written-none :
    (entry : Entry) (hash : ℕ) (h : List ℕ) (f g : ℕ)
    → written entry hash h f g ≡ none
    → is_hit entry hash h g ≡ false
unfolding written is_hit
written-none entry hash h f g e = ground arith

pub insert_from_stop :
    (slots : ℕ → Entry) (hash : ℕ) (h : List ℕ) (f g probe rounds : ℕ) (entry : Entry)
    → written (slots (slot hash probe)) hash h f g ≡ some entry
    → insert_from slots hash h f g probe (suc rounds) ≡ some (slot hash probe, entry)
unfolding insert_from
insert_from_stop slots hash h f g probe rounds entry e = rw (e, insert_from) refl

pub insert_from_pass :
    (slots : ℕ → Entry) (hash : ℕ) (h : List ℕ) (f g probe rounds : ℕ)
    → written (slots (slot hash probe)) hash h f g ≡ none
    → insert_from slots hash h f g probe (suc rounds)
      ≡ insert_from slots hash h f g (probe + 1) rounds
unfolding insert_from
insert_from_pass slots hash h f g probe rounds e = rw (e, insert_from) refl

pub insert_from-written :
    (slots : ℕ → Entry) (hash : ℕ) (h : List ℕ) (f g probe rounds i : ℕ) (entry : Entry)
    → insert_from slots hash h f g probe rounds ≡ some (i, entry)
    → written (slots i) hash h f g ≡ some entry
unfolding insert_from
insert_from-written slots hash h f g probe zero i entry e = absurd (ground arith)
insert_from-written slots hash h f g probe (suc rounds) i entry e =
    elim (Option-cases (written (slots (slot hash probe)) hash h f g)) [
      | inl pass ↦
          insert_from-written slots hash h f g (probe + 1) rounds i entry
            (sym (insert_from_pass slots hash h f g probe rounds pass) ∙ e)
      | inr (v, stop) ↦ ground (arith, insert_from_stop slots hash h f g probe rounds v stop, stop)
    ]
