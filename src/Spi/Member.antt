-- ===== src/Spi/Member.antt =====
-- `MemberFilterBulk` of include/dpdk/spi/spi_rule_engine.cpp, the pre-filter in front of the ACL, and
-- the keys that `CompileRuleTable` puts into its set.
use dpdk_cpp.Base.{
  ℕ, ◌≤◌, Bool, true, false, ◌&&◌, ◌||◌, List, [], ◌∷◌, Option, none, some, ◌==◌, if◌then◌else◌,
  length, length-map, take, take_all, map, ◌∙◌, ◌≡◌, refl, sym, ap, arith, Bool-cases, inl, inr,
}
use dpdk_cpp.Packet.{PacketMetadata}
use dpdk_cpp.Spi.Dpdk.{RteMember, MemberKey}
use dpdk_cpp.Spi.Filter.{protocol_to_ip_proto}

unfoldable pub exact_key : PacketMetadata → MemberKey
exact_key packet = record {
  dst_ip_be = packet.destination_ip_be;
  dst_port_be = packet.destination_port_be;
  protocol = protocol_to_ip_proto packet.protocol;
}

unfoldable pub wild_key : PacketMetadata → MemberKey
unfolding exact_key
wild_key packet = record (exact_key packet) { dst_port_be = 0 }

-- The wildcard keys of the packets whose set id is `RTE_MEMBER_NO_MATCH`.
unfoldable pub wild_keys : List PacketMetadata → List ℕ → List MemberKey
unfolding wild_key
wild_keys (p ∷ packets) (id ∷ ids) =
    let rest = wild_keys packets ids in if id == 0 then wild_key p ∷ rest else rest
wild_keys _ _ = []

-- The set ids after the second pass: each missing one takes the next wildcard id.
unfoldable pub fill : List ℕ → List ℕ → List ℕ
fill [] wild = []
fill (id ∷ ids) [] = id ∷ ids
fill (id ∷ ids) (w ∷ wild) =
    let kept = fill ids (w ∷ wild) in
    let filled = fill ids wild in if id == 0 then w ∷ filled else id ∷ kept

-- The last loop: the flag of a packet without a set is raised, another one stays as it was.
unfoldable pub raise : List ℕ → List Bool → List Bool
raise (id ∷ ids) (flag ∷ flags) = (id == 0 || flag) ∷ raise ids flags
raise _ flags = flags

module _ (member : RteMember) where
  open member use {Setsum, lookup, lookup_bulk, lookup_bulk_each}

  second_pass : Setsum → List PacketMetadata → List ℕ → List ℕ
  unfolding wild_keys fill
  second_pass s packets ids =
      if length (wild_keys packets ids) == 0
      then ids
      else fill ids (lookup_bulk s (wild_keys packets ids))

  unfoldable pub skip_with : Setsum → List PacketMetadata → List Bool → List Bool
  unfolding exact_key second_pass raise
  skip_with s packets skip_acl =
      raise (second_pass s packets (lookup_bulk s (map exact_key packets))) skip_acl

  -- `has_wildcard` is `has_wildcard_ip_rules_`.
  unfoldable pub member_filter_bulk :
      Option Setsum → Bool → List PacketMetadata → List Bool → List Bool
  unfolding skip_with
  member_filter_bulk none has_wildcard packets skip_acl = skip_acl
  member_filter_bulk (some s) has_wildcard packets skip_acl =
      if has_wildcard then skip_acl else skip_with s (take 64 packets) skip_acl

  -- What one packet's flag becomes.
  unfoldable pub skips : Setsum → PacketMetadata → Bool
  unfolding exact_key wild_key
  skips s packet = lookup s (exact_key packet) == 0 && lookup s (wild_key packet) == 0

  unfoldable pub skip_each : Setsum → List PacketMetadata → List Bool → List Bool
  unfolding skips
  skip_each s (p ∷ packets) (flag ∷ flags) = (skips s p || flag) ∷ skip_each s packets flags
  skip_each s _ flags = flags

  length-wild_keys :
      (packets : List PacketMetadata) (ids : List ℕ)
      → length (wild_keys packets ids) ≤ length packets
  unfolding wild_keys
  length-wild_keys [] ids = omega arith
  length-wild_keys (p ∷ packets) [] = omega arith
  length-wild_keys (p ∷ packets) (id ∷ ids) = ground (arith, length-wild_keys packets ids)

  fill_nothing : (ids : List ℕ) → fill ids [] ≡ ids
  unfolding fill
  fill_nothing [] = refl
  fill_nothing (id ∷ ids) = refl

  fill_kept :
      (id : ℕ) (ids wild : List ℕ) → (id == 0) ≡ false → fill (id ∷ ids) wild ≡ id ∷ fill ids wild
  unfolding fill
  fill_kept id ids [] h = ap (λ xs. id ∷ xs) (sym (fill_nothing ids))
  fill_kept id ids (w ∷ wild) h = rw h refl

  fill_missed :
      (id w : ℕ) (ids wild : List ℕ)
      → (id == 0) ≡ true
      → fill (id ∷ ids) (w ∷ wild) ≡ w ∷ fill ids wild
  unfolding fill
  fill_missed id w ids wild h = rw h refl

  -- The set ids of a first pass, and what the second makes of them.
  first : Setsum → List PacketMetadata → List ℕ
  first s packets = map (lookup s) (map exact_key packets)

  second : Setsum → List PacketMetadata → List ℕ
  unfolding first
  second s packets = fill (first s packets) (map (lookup s) (wild_keys packets (first s packets)))

  second_cons :
      (s : Setsum) (p : PacketMetadata) (packets : List PacketMetadata)
      → second s (p ∷ packets)
        ≡ (if lookup s (exact_key p) == 0 then lookup s (wild_key p) else lookup s (exact_key p))
          ∷ second s packets
  unfolding second first wild_keys
  second_cons s p packets = elim (Bool-cases (lookup s (exact_key p) == 0)) [
    | inl miss ↦ simp miss (
        fill_missed (lookup s (exact_key p)) (lookup s (wild_key p)) (first s packets)
          (map (lookup s) (wild_keys packets (first s packets))) miss)
    | inr hit ↦ simp hit (
        fill_kept (lookup s (exact_key p)) (first s packets)
          (map (lookup s) (wild_keys packets (first s packets))) hit)
  ]

  raise_each :
      (s : Setsum) (packets : List PacketMetadata) (flags : List Bool)
      → raise (second s packets) flags ≡ skip_each s packets flags
  unfolding raise skip_each skips second fill
  raise_each s [] flags = refl
  raise_each s (p ∷ packets) [] = rw (second_cons s p packets) refl
  raise_each s (p ∷ packets) (flag ∷ flags) =
      rw (second_cons s p packets, raise_each s packets flags) (ground arith)

  second_pass-second :
      (s : Setsum) (packets : List PacketMetadata)
      → length packets ≤ 64
      → second_pass s packets (lookup_bulk s (map exact_key packets)) ≡ second s packets
  unfolding second_pass second first
  second_pass-second s packets h =
      elim (Bool-cases (length (wild_keys packets (first s packets)) == 0)) [
        | inl none_e ↦
            rw (exact, none_e, empty_wild (ground arith)) (sym (fill_nothing (first s packets)))
        | inr some_e ↦ rw (exact, some_e, wild) refl
      ]
    where
      exact : lookup_bulk s (map exact_key packets) ≡ map (lookup s) (map exact_key packets)
      exact =
          lookup_bulk_each s (map exact_key packets)
            (omega (arith, length-map exact_key packets, h))

      wild :
          lookup_bulk s (wild_keys packets (first s packets))
          ≡ map (lookup s) (wild_keys packets (first s packets))
      wild =
          lookup_bulk_each s (wild_keys packets (first s packets))
            (omega (arith, length-wild_keys packets (first s packets), h))

      empty_wild :
          length (wild_keys packets (first s packets)) ≡ 0
          → wild_keys packets (first s packets) ≡ []
      empty_wild e = ground (arith, e)

  -- For at most 64 packets, and unless there is no set or a wildcard rule, `MemberFilterBulk` raises
  -- the flag of exactly those packets of which neither the key with the port nor the one with port 0
  -- is in a set, and keeps every other flag.
  pub member_filter_bulk-each :
      (s : Setsum) (packets : List PacketMetadata) (flags : List Bool)
      → length packets ≤ 64
      → member_filter_bulk (some s) false packets flags ≡ skip_each s packets flags
  unfolding member_filter_bulk skip_with
  member_filter_bulk-each s packets flags h =
      ap (λ ps. skip_with s ps flags) (take_all 64 packets h)
      ∙ ap (λ ids. raise ids flags) (second_pass-second s packets h)
      ∙ raise_each s packets flags
