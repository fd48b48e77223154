-- ===== src/Config/Project/Covered.antt =====
-- What a validated configuration guarantees as a whole.
use native.Mathlib.Nat.{mod-eq_of_lt, sub-zero}
use shuttle_gate.Base.{
  ℕ, ◌≡◌, refl, true, false, not, ◌&&◌, List, [], ◌∷◌, some, any, all, contains, ◌==◌, ◌!=◌, nat_eq,
  All, arith, inl, inr, ◌⊎◌, ◌<◌, ◌^◌, ◌-◌, ◌%◌, Bool-cases, Any, All-map, Any-map, any-Any,
  any-All_not,
}
use shuttle_gate.Errors.{ok}
use shuttle_gate.Net.{width, Address, AddressText, Interface, network, in_network}
use shuttle_gate.Config.{PeerConfig, WireGuardConfig, ProjectConfig, full}
use shuttle_gate.Config.Peer.{IsPeer, validate_peer-IsPeer, versions}
use shuttle_gate.Config.WireGuard.Network.{validate_network, validate_wireguard}
use shuttle_gate.Config.WireGuard.Isolation.{IsIsolated, validate_network-IsIsolated}
use shuttle_gate.Config.Project.{
  route_version, default_route, effective_routes, check_upstream, validate_cross_fields,
  validate_peers, validate_project,
}

abbrev Has : ℕ → PeerConfig → Type 0
Has family peer = Any (λ i. i.version ≡ family) peer.addresses

Has_of_not_lacks :
    (family : ℕ) (addresses : List Interface)
    → all (λ i. i.version != family) addresses ≡ false
    → Any (λ i. i.version ≡ family) addresses
Has_of_not_lacks family [] h = cc
Has_of_not_lacks family (i ∷ addresses) h = elim (Bool-cases (i.version == family)) [
  | inl e ↦ inl (ground arith)
  | inr e ↦ inr (Has_of_not_lacks family addresses (ground arith))
]

-- A DNS upstream that phones can reach through the gateway: outside the tunnel's own networks,
-- inside a route, and of a family that every peer has.
pub record IsReachable (config : ProjectConfig) (upstream : Address) : Type 0 where
  pub outside :
      All
        (λ g. ¬ ((upstream.version ≡ g.version) × (in_network upstream (network g) ≡ true)))
        config.wireguard.gateway_addresses
  pub routed : Any (λ r. in_network upstream r ≡ true) (effective_routes config)
  pub shared : All (Has upstream.version) config.wireguard.peers

check_upstream-IsReachable :
    (config : ProjectConfig) (upstream : Address)
    → check_upstream config upstream ≡ ok tt
    → IsReachable config upstream
unfolding check_upstream
check_upstream-IsReachable config upstream h =
    let gateways : any (λ g. upstream.version == g.version && in_network upstream (network g))
          config.wireguard.gateway_addresses
        ≡ false =
      ground arith in
    let routes : any (λ r. route_version r == upstream.version && in_network upstream r)
          (effective_routes config)
        ≡ true =
      ground arith in
    let peers : any (λ (p : PeerConfig). all (λ i. i.version != upstream.version) p.addresses)
          config.wireguard.peers
        ≡ false =
      ground arith in
    record {
      outside =
          All-map _ _ (λ g k p. ground arith) config.wireguard.gateway_addresses
            (any-All_not _ _ gateways);
      routed = Any-map _ _ (λ r k. ground arith) (effective_routes config) (any-Any _ _ routes);
      shared =
          All-map _ _ (λ p k. Has_of_not_lacks upstream.version p.addresses k)
            config.wireguard.peers (any-All_not _ _ peers);
    }

validate_peers-IsPeer : (peers : List PeerConfig) → validate_peers peers ≡ ok tt → All IsPeer peers
unfolding validate_peers
validate_peers-IsPeer [] h = tt
validate_peers-IsPeer (peer ∷ peers) h =
    (validate_peer-IsPeer peer (ground arith), validate_peers-IsPeer peers (ground arith))

-- A configuration whose parts fit together.
pub record IsConsistent (config : ProjectConfig) : Type 0 where
  pub peers : All IsPeer config.wireguard.peers
  pub isolated : IsIsolated config.wireguard
  pub routed :
      All
        (λ r. contains (versions config.wireguard.gateway_addresses) (route_version r) ≡ true)
        (effective_routes config)
  pub reachable :
      (upstream : Address)
      → config.dns.enabled ≡ true
      → config.dns.upstream ≡ some upstream
      → IsReachable config upstream

validate_cross_fields_lem :
    (config : ProjectConfig) (upstream : Address)
    → validate_cross_fields config ≡ ok tt
    → config.dns.enabled ≡ true
    → config.dns.upstream ≡ some upstream
    → check_upstream config upstream ≡ ok tt
unfolding validate_cross_fields
validate_cross_fields_lem config upstream h enabled e = ground arith

validate_wireguard-network :
    (text : AddressText) (w : WireGuardConfig)
    → validate_wireguard text w ≡ ok tt
    → validate_network w ≡ ok tt
unfolding validate_wireguard
validate_wireguard-network text w h = ground arith

cross_fields-routed :
    (config : ProjectConfig)
    → validate_cross_fields config ≡ ok tt
    → All
        (λ r. contains (versions config.wireguard.gateway_addresses) (route_version r) ≡ true)
        (effective_routes config)
unfolding validate_cross_fields
cross_fields-routed config h =
    let none_left : any
          (λ r. not (contains (versions config.wireguard.gateway_addresses) (route_version r)))
          (effective_routes config)
        ≡ false =
      ground arith in
    All-map _ _ (λ r k. ground arith) (effective_routes config) (any-All_not _ _ none_left)

module _ (text : AddressText) (given : ProjectConfig) {config : ProjectConfig}
    (h : validate_project text given ≡ ok config) where
  same : config ≡ given
  unfolding validate_project
  same = ground arith

  peers_accepted : validate_peers given.wireguard.peers ≡ ok tt
  unfolding validate_project
  peers_accepted = ground arith

  wireguard_accepted : validate_wireguard text given.wireguard ≡ ok tt
  unfolding validate_project
  wireguard_accepted = ground arith

  cross_fields_accepted : validate_cross_fields given ≡ ok tt
  unfolding validate_project
  cross_fields_accepted = ground arith

  -- If a configuration is accepted, it is the one that was given: every peer is well formed, the
  -- address plan is isolated, every effective route is of a gateway's family, and an enabled DNS
  -- upstream is reachable.
  pub validate_project-IsConsistent : (config ≡ given) × IsConsistent given
  validate_project-IsConsistent = (
    same,
    record {
      peers = validate_peers-IsPeer given.wireguard.peers peers_accepted;
      isolated =
          validate_network-IsIsolated given.wireguard
            (validate_wireguard-network text given.wireguard wireguard_accepted);
      routed = cross_fields-routed given cross_fields_accepted;
      reachable = λ upstream enabled e.
          check_upstream-IsReachable given upstream
            (validate_cross_fields_lem given upstream cross_fields_accepted enabled e);
    },
  )

-- An address that fits its family.
abbrev pub IsAddress : Address → Type 0
IsAddress a = a.value < 2 ^ width a.version

width_4 : width 4 ≡ 32
unfolding nat_eq
width_4 = refl

width_6 : width 6 ≡ 128
unfolding nat_eq
width_6 = refl

in_whole : (v size : ℕ) → v < size → v - v % size ≡ 0
in_whole v size h = ground (arith, mod-eq_of_lt h)

in_default_route :
    (a : Address) (version : ℕ)
    → IsAddress a
    → in_network a (default_route version) ≡ (a.version == version)
unfolding in_network
in_default_route a version fits = elim (Bool-cases (a.version == version)) [
  | inl e ↦
      let same : a.version ≡ version = ground arith in
      let whole = in_whole a.value (2 ^ (width version - 0)) (rw (sub-zero, ← same) fits) in
      ground (arith, whole)
  | inr e ↦ rw e
]

-- With full routing, an address of version 4 or 6 that fits its family lies in an effective route
-- exactly if some gateway address has its version.
pub effective_routes-full :
    (config : ProjectConfig) (a : Address)
    → config.routing.mode ≡ full
    → (a.version ≡ 4) ⊎ (a.version ≡ 6)
    → IsAddress a
    → any (in_network a) (effective_routes config)
      ≡ contains (versions config.wireguard.gateway_addresses) a.version
unfolding effective_routes
effective_routes-full config a e (inl v4) fits =
    ground (arith, in_default_route a 4 fits, in_default_route a 6 fits)
effective_routes-full config a e (inr v6) fits =
    ground (arith, in_default_route a 4 fits, in_default_route a 6 fits)
