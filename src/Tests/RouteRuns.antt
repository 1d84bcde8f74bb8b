-- ===== src/Tests/RouteRuns.antt =====
-- Ports and routes on a small network.
use dpdk_cpp.Base.{
  ℕ, ◌≡◌, inl, inr, Bool, true, false, List, [], ◌∷◌, Option, none, some, arith, ◌==◌,
  if◌then◌else◌, All, Bool-cases, IsDistinct,
}
use dpdk_cpp.Parser.Headers.Frames.{frame_metadata}
use dpdk_cpp.Pipeline.Routes.{
  get_transmit_port, Ipv4Route, L3RouteEntry, route_entries, build_l3_routes,
  lookup_l3_transmit_port,
}
use dpdk_cpp.Pipeline.Routes.Longest.{
  Has, IsStrictWeak, IsSorted, IsSort, IsLongest, build_l3_routes-IsLongest,
}
use dpdk_cpp.Pipeline.Routes.Pairs.{get_transmit_port_twice}
use dpdk_cpp.Tests.ParserRuns.{plain_mbuf, hello_frame}

ports-IsDistinct : IsDistinct (3 ∷ 5 ∷ 8 ∷ [])
ports-IsDistinct =
    (((λ e. ground arith), ((λ e. ground arith), tt)), (((λ e. ground arith), tt), (tt, tt)))

get_transmit_port_twice_example :
    get_transmit_port (3 ∷ 5 ∷ 8 ∷ []) (get_transmit_port (3 ∷ 5 ∷ 8 ∷ []) 5) ≡ 5
get_transmit_port_twice_example = get_transmit_port_twice (3 ∷ 5 ∷ 8 ∷ []) 5 ports-IsDistinct

-- Sorting by insertion.
module _ (comp : L3RouteEntry → L3RouteEntry → Bool) where
  put_route : L3RouteEntry → List L3RouteEntry → List L3RouteEntry
  put_route r [] = r ∷ []
  put_route r (x ∷ xs) = let rest = put_route r xs in if comp r x then r ∷ x ∷ xs else x ∷ rest

  sort_routes : List L3RouteEntry → List L3RouteEntry
  unfolding put_route
  sort_routes [] = []
  sort_routes (r ∷ rs) = put_route r (sort_routes rs)

  put_route-All :
      (P : L3RouteEntry → Type 0) (r : L3RouteEntry) (xs : List L3RouteEntry)
      → P r
      → All P xs
      → All P (put_route r xs)
  unfolding put_route
  put_route-All P r [] h hs = (h, tt)
  put_route-All P r (x ∷ xs) h (hx, hs) = elim (Bool-cases (comp r x)) [
    | inl e ↦ rw (e, put_route) (h, (hx, hs))
    | inr e ↦ rw (e, put_route) (hx, put_route-All P r xs h hs)
  ]

  put_route-All_back :
      (P : L3RouteEntry → Type 0) (r : L3RouteEntry) (xs : List L3RouteEntry)
      → All P (put_route r xs)
      → P r × All P xs
  unfolding put_route
  put_route-All_back P r [] h = h
  put_route-All_back P r (x ∷ xs) h = from (comp r x) (put_route-All_back P r xs) h
    where
      from :
          (first : Bool)
          → (All P (put_route r xs) → P r × All P xs)
          → All P (if first then r ∷ x ∷ xs else x ∷ put_route r xs)
          → P r × (P x × All P xs)
      from true back h = h
      from false back (hx, h) = ((back h).0, (hx, (back h).1))

  put_route-Has :
      (P : L3RouteEntry → Type 0) (r : L3RouteEntry) (xs : List L3RouteEntry)
      → Has P (put_route r xs)
      → Has P (r ∷ xs)
  unfolding put_route
  put_route-Has P r [] h = h
  put_route-Has P r (x ∷ xs) h = from (comp r x) (put_route-Has P r xs) h
    where
      from :
          (first : Bool)
          → (Has P (put_route r xs) → Has P (r ∷ xs))
          → Has P (if first then r ∷ x ∷ xs else x ∷ put_route r xs)
          → Has P (r ∷ x ∷ xs)
      from true back h = h
      from false back (inl h) = inr (inl h)
      from false back (inr h) = elim (back h) [ inl h' ↦ inl h' | inr h' ↦ inr (inr h') ]

  ahead :
      (r x y : L3RouteEntry)
      → IsStrictWeak comp
      → comp r x ≡ true
      → comp y x ≡ false
      → comp y r ≡ false
  ahead r x y weak h h' = elim (Bool-cases (comp y r)) [
    | inl e ↦ absurd (ground (arith, weak.transitive y r x e h, h'))
    | inr e ↦ e
  ]

  none_ahead :
      (r x : L3RouteEntry) (xs : List L3RouteEntry)
      → IsStrictWeak comp
      → comp r x ≡ true
      → All (λ y. comp y x ≡ false) xs
      → All (λ y. comp y r ≡ false) xs
  none_ahead r x [] weak h hs = tt
  none_ahead r x (y ∷ ys) weak h (hy, hs) = (ahead r x y weak h hy, none_ahead r x ys weak h hs)

  put_route-IsSorted :
      (r : L3RouteEntry) (xs : List L3RouteEntry)
      → IsStrictWeak comp
      → IsSorted comp xs
      → IsSorted comp (put_route r xs)
  unfolding put_route
  put_route-IsSorted r [] weak h = (tt, tt)
  put_route-IsSorted r (x ∷ xs) weak (h, hs) = elim (Bool-cases (comp r x)) [
    | inl e ↦
        rw (e, put_route)
          ((ahead r x x weak e (weak.irreflexive x), none_ahead r x xs weak e h), (h, hs))
    | inr e ↦
        rw (e, put_route)
          (put_route-All (λ y. comp y x ≡ false) r xs e h, put_route-IsSorted r xs weak hs)
  ]

  sort_routes-IsSorted :
      IsStrictWeak comp → (rs : List L3RouteEntry) → IsSorted comp (sort_routes rs)
  unfolding sort_routes
  sort_routes-IsSorted weak [] = tt
  sort_routes-IsSorted weak (r ∷ rs) =
      put_route-IsSorted r (sort_routes rs) weak (sort_routes-IsSorted weak rs)

  sort_routes-All :
      (P : L3RouteEntry → Type 0) (rs : List L3RouteEntry) → All P (sort_routes rs) → All P rs
  unfolding sort_routes
  sort_routes-All P [] h = h
  sort_routes-All P (r ∷ rs) h = (
    (put_route-All_back P r (sort_routes rs) h).0,
    sort_routes-All P rs (put_route-All_back P r (sort_routes rs) h).1,
  )

  sort_routes-Has :
      (P : L3RouteEntry → Type 0) (rs : List L3RouteEntry) → Has P (sort_routes rs) → Has P rs
  unfolding sort_routes
  sort_routes-Has P [] h = h
  sort_routes-Has P (r ∷ rs) h = elim (put_route-Has P r (sort_routes rs) h) [
    | inl h' ↦ inl h'
    | inr h' ↦ inr (sort_routes-Has P rs h')
  ]

sort_routes-IsSort : IsSort sort_routes
sort_routes-IsSort = record {
  sorted = λ comp rs weak. sort_routes-IsSorted comp weak rs;
  keeps_all = λ comp P rs weak. sort_routes-All comp P rs;
  keeps_has = λ comp P rs weak. sort_routes-Has comp P rs;
}

-- Texts of one byte stand for the addresses 10.0.0.0 and 10.1.0.0.
abbrev small_pton : List ℕ → Option ℕ
small_pton [] = none
small_pton (c ∷ text) = if c == 1 then some 167772160 else if c == 2 then some 167837696 else none

abbrev two_routes : List Ipv4Route
two_routes =
    record { destination_ip_address = 1 ∷ []; prefix_length = 8; output_port = 1 }
    ∷ record { destination_ip_address = 2 ∷ []; prefix_length = 16; output_port = 2 }
    ∷ []

build_l3_routes-IsLongest_example :
    IsLongest small_pton
      (λ n. n)
      (route_entries small_pton (λ n. n) two_routes)
      167837697
      (lookup_l3_transmit_port small_pton
        (λ n. n)
        (build_l3_routes small_pton (λ n. n) sort_routes two_routes)
        (record (frame_metadata plain_mbuf hello_frame) { destination_ip_be = 167837697 }))
build_l3_routes-IsLongest_example =
    build_l3_routes-IsLongest small_pton (λ n. n) sort_routes two_routes
      (record (frame_metadata plain_mbuf hello_frame) { destination_ip_be = 167837697 })
      sort_routes-IsSort
