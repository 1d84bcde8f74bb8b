-- ===== src/Pipeline/Routes/Longest.antt =====
-- The routes of include/dpdk/spi/spi_pipeline.cpp: the longest prefix wins.
use dpdk_cpp.Base.{
  ℕ, ◌≤◌, Bool, true, false, List, [], ◌∷◌, Option, none, some, if◌then◌else◌, ◌≡◌, ◌⊎◌, inl, inr,
  refl, arith, All,
}
use dpdk_cpp.Packet.{PacketMetadata}
use dpdk_cpp.Pipeline.Routes.{
  Ipv4Route, L3RouteEntry, route_entries, build_l3_routes, is_before, is_on_route,
  lookup_l3_transmit_port,
}

-- The list has a route with a property.
abbrev pub Has {ℓ} : {A : Type ℓ} → (A → Type 0) → List A → Type 0
Has P [] = ⊥
Has P (x ∷ xs) = P x ⊎ Has P xs

-- No prefix is longer than one before it.
abbrev pub IsDescending : List L3RouteEntry → Type 0
IsDescending [] = Unit
IsDescending (r ∷ routes) =
    All (λ (r' : L3RouteEntry). r'.prefix_length ≤ r.prefix_length) routes × IsDescending routes

-- What the standard library asks of a comparison that a list is sorted by.
pub record IsStrictWeak (comp : L3RouteEntry → L3RouteEntry → Bool) : Type 0 where
  pub irreflexive : (a : L3RouteEntry) → comp a a ≡ false
  pub transitive : (a b c : L3RouteEntry) → comp a b ≡ true → comp b c ≡ true → comp a c ≡ true
  pub negatively_transitive :
      (a b c : L3RouteEntry) → comp a b ≡ false → comp b c ≡ false → comp a c ≡ false

-- No entry has to come before one that stands ahead of it.
abbrev pub IsSorted : (L3RouteEntry → L3RouteEntry → Bool) → List L3RouteEntry → Type 0
IsSorted comp [] = Unit
IsSorted comp (r ∷ routes) = All (λ r'. comp r' r ≡ false) routes × IsSorted comp routes

-- `std::ranges::sort` as it is documented: the list is sorted by a comparison that is a strict weak
-- order, and has the same entries as before.
pub record IsSort
    (sort : (L3RouteEntry → L3RouteEntry → Bool) → List L3RouteEntry → List L3RouteEntry)
    : Type 1 where
  pub sorted :
      (comp : L3RouteEntry → L3RouteEntry → Bool) (rs : List L3RouteEntry)
      → IsStrictWeak comp
      → IsSorted comp (sort comp rs)
  pub keeps_all :
      (comp : L3RouteEntry → L3RouteEntry → Bool) (P : L3RouteEntry → Type 0)
      (rs : List L3RouteEntry)
      → IsStrictWeak comp
      → All P (sort comp rs)
      → All P rs
  pub keeps_has :
      (comp : L3RouteEntry → L3RouteEntry → Bool) (P : L3RouteEntry → Type 0)
      (rs : List L3RouteEntry)
      → IsStrictWeak comp
      → Has P (sort comp rs)
      → Has P rs

is_before-IsStrictWeak : IsStrictWeak is_before
unfolding is_before
is_before-IsStrictWeak = record {
  irreflexive = λ a. ground arith;
  transitive = λ a b c h h'. ground arith;
  negatively_transitive = λ a b c h h'. ground arith;
}

All-imp :
    {A : Type 0} (P Q : A → Type 0) (xs : List A) → ((x : A) → P x → Q x) → All P xs → All Q xs
All-imp P Q [] f h = tt
All-imp P Q (x ∷ xs) f (h, hs) = (f x h, All-imp P Q xs f hs)

Has-imp :
    {A : Type 0} (P Q : A → Type 0) (xs : List A) → ((x : A) → P x → Q x) → Has P xs → Has Q xs
Has-imp P Q [] f h = h
Has-imp P Q (x ∷ xs) f (inl h) = inl (f x h)
Has-imp P Q (x ∷ xs) f (inr h) = inr (Has-imp P Q xs f h)

-- Sorted by the comparison of `BuildL3Routes`, no prefix is longer than one before it.
is_before-IsDescending :
    (routes : List L3RouteEntry) → IsSorted is_before routes → IsDescending routes
unfolding is_before
is_before-IsDescending [] h = tt
is_before-IsDescending (r ∷ routes) (h, hs) =
    (All-imp _ _ routes (λ r' e. ground arith) h, is_before-IsDescending routes hs)

module _ (inet_pton4 : List ℕ → Option ℕ) (be_to_cpu_32 : ℕ → ℕ) where
  -- What a lookup of a destination finds in a list of routes: the port of a route to it with no
  -- shorter prefix than any other one to it, or nothing if there is none.
  abbrev pub IsLongest : List L3RouteEntry → ℕ → Option ℕ → Type 0
  IsLongest routes d none = All (λ r. is_on_route inet_pton4 be_to_cpu_32 r d ≡ false) routes
  IsLongest routes d (some port) =
      (best : ℕ) × Has
        (λ (r : L3RouteEntry).
          (is_on_route inet_pton4 be_to_cpu_32 r d ≡ true)
          × (r.output_port ≡ port)
          × (r.prefix_length ≡ best))
        routes
      × All
          (λ (r : L3RouteEntry).
            is_on_route inet_pton4 be_to_cpu_32 r d ≡ true → r.prefix_length ≤ best)
          routes

  lookup_l3_transmit_port-IsLongest :
      (routes : List L3RouteEntry) (m : PacketMetadata)
      → IsDescending routes
      → IsLongest routes m.destination_ip_be
          (lookup_l3_transmit_port inet_pton4 be_to_cpu_32 routes m)
  unfolding lookup_l3_transmit_port
  lookup_l3_transmit_port-IsLongest [] m d = tt
  lookup_l3_transmit_port-IsLongest (r ∷ routes) m (d, ds) =
      first (is_on_route inet_pton4 be_to_cpu_32 r m.destination_ip_be) refl
        (lookup_l3_transmit_port inet_pton4 be_to_cpu_32 routes m)
        (lookup_l3_transmit_port-IsLongest routes m ds)
    where
      first :
          (hit : Bool)
          → is_on_route inet_pton4 be_to_cpu_32 r m.destination_ip_be ≡ hit
          → (rest : Option ℕ) → IsLongest routes m.destination_ip_be rest
          → IsLongest (r ∷ routes) m.destination_ip_be (if hit then some r.output_port else rest)
      first true e rest h = (
        r.prefix_length,
        inl (e, refl, refl),
        ((λ _. omega arith), All-imp _ _ routes (λ r' k _. k) d),
      )
      first false e none h = (e, h)
      first false e (some port) (best, found, all) =
          (best, inr found, ((λ e'. ground (arith, e, e')), all))

  -- With any sort that does what is documented of `std::ranges::sort`, the routes built from a
  -- configuration send a packet to the port of a configured route to its destination that has the
  -- longest prefix of all such routes, and nowhere if no configured route leads there; a route whose
  -- address is not valid is left out.
  pub build_l3_routes-IsLongest :
      (sort : (L3RouteEntry → L3RouteEntry → Bool) → List L3RouteEntry → List L3RouteEntry)
      (routes : List Ipv4Route) (m : PacketMetadata)
      → IsSort sort
      → IsLongest (route_entries inet_pton4 be_to_cpu_32 routes) m.destination_ip_be (
          lookup_l3_transmit_port inet_pton4 be_to_cpu_32
            (build_l3_routes inet_pton4 be_to_cpu_32 sort routes)
            m)
  unfolding build_l3_routes
  build_l3_routes-IsLongest sort routes m law =
      unsorted (lookup_l3_transmit_port inet_pton4 be_to_cpu_32 (sort is_before entries) m) (
        lookup_l3_transmit_port-IsLongest (sort is_before entries) m (
          is_before-IsDescending (sort is_before entries)
            (law.sorted is_before entries is_before-IsStrictWeak)))
    where
      entries : List L3RouteEntry
      entries = route_entries inet_pton4 be_to_cpu_32 routes

      all : (P : L3RouteEntry → Type 0) → All P (sort is_before entries) → All P entries
      all P = law.keeps_all is_before P entries is_before-IsStrictWeak

      unsorted :
          (found : Option ℕ)
          → IsLongest (sort is_before entries) m.destination_ip_be found
          → IsLongest entries m.destination_ip_be found
      unsorted none h = all _ h
      unsorted (some port) (best, found, none_longer) =
          (best, law.keeps_has is_before _ entries is_before-IsStrictWeak found, all _ none_longer)
