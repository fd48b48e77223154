-- ===== src/Config/WireGuard/Isolation.antt =====
-- What `validate_network` guarantees of the tunnel's addresses.
use shuttle_gate.Base.{
  String, ℕ, true, false, ◌≡◌, ◌≢◌, List, [], ◌∷◌, ◌++◌, some, map, contains, is_unique, nat_eq,
  string_eq, All, Distinct, Fresh, Fresh-cons, concat_map, arith, Option-cases, is_empty,
  is_empty-ne-nil, inl, inr, subst, is_unique-Distinct,
}
use shuttle_gate.Errors.{ok, >>=-eq-ok, raise_if-eq-ok}
use shuttle_gate.Net.{Address, Interface, address_eq, ip, network, in_network, is_multicast}
use shuttle_gate.Config.{PeerConfig, WireGuardConfig}
use shuttle_gate.Config.Peer.{versions}
use shuttle_gate.Config.WireGuard.Network.{
  gateway_of, check_gateways, check_peer_address, check_peer_addresses, check_peers,
  validate_network,
}

-- The address lies in the network of a gateway of its family and is no gateway.
abbrev pub IsInside : List Interface → Interface → Type 0
IsInside gateways i =
    (g : Interface) × (gateway_of i.version gateways ≡ some g)
    × (in_network (ip i) (network g) ≡ true)
    × (contains (map ip gateways) (ip i) ≡ false)

module _ (gateways : List Interface) where
  check_peer_address_lem :
      (seen : List Address) (name : String) (i : Interface)
      → check_peer_address gateways seen name i ≡ ok tt
      → IsInside gateways i × (contains seen (ip i) ≡ false)
  unfolding check_peer_address
  check_peer_address_lem seen name i h = elim (Option-cases (gateway_of i.version gateways)) [
    | inl missing ↦ ground arith
    | inr (g, found) ↦ ((g, found, ground arith, ground arith), ground arith)
  ]

  -- The addresses of a list of peers are inside, differ from those that were seen, and from each
  -- other.
  abbrev IsFreshAndInside : List Address → List Interface → Type 0
  IsFreshAndInside seen addresses =
      All (IsInside gateways) addresses
      × Fresh seen (map ip addresses)
      × Distinct (map ip addresses)

  check_peer_addresses_lem :
      (seen : List Address) (name : String) (addresses : List Interface) {seen' : List Address}
      → check_peer_addresses gateways seen name addresses ≡ ok seen'
      → (rest : List Interface) → IsFreshAndInside seen' rest
      → IsFreshAndInside seen (addresses ++ rest)
  unfolding check_peer_addresses
  check_peer_addresses_lem seen name [] h rest k =
      subst (λ s. IsFreshAndInside s rest) (ground arith) k
  check_peer_addresses_lem seen name (i ∷ addresses) {seen'} h rest k =
      let (inside, fresh) = check_peer_address_lem seen name i (ground arith) in
      let (insides, news, distinct) =
        check_peer_addresses_lem (ip i ∷ seen) name addresses {seen' = seen'} (ground arith) rest
          k in
      let (apart, unseen) = Fresh-cons (ip i) seen (map ip (addresses ++ rest)) news in
      ((inside, insides), (fresh, unseen), (apart, distinct))

  check_peers_lem :
      (names : List String) (seen : List Address) (peers : List PeerConfig)
      → check_peers gateways names seen peers ≡ ok tt
      → IsFreshAndInside seen (concat_map (λ p. p.addresses) peers)
        × Fresh names (map (λ p. p.name) peers)
        × Distinct (map (λ p. p.name) peers)
  unfolding check_peers
  check_peers_lem names seen [] h = ((tt, tt, tt), tt, tt)
  check_peers_lem names seen (peer ∷ peers) h =
      let (fresh, h') = raise_if-eq-ok _ _ _ h in
      let (seen', checked, more) =
        >>=-eq-ok (check_peer_addresses gateways seen peer.name peer.addresses) _ h' in
      let (addresses, news, distinct) = check_peers_lem (peer.name ∷ names) seen' peers more in
      let (apart, unseen) = Fresh-cons peer.name names (map (λ p. p.name) peers) news in
      (
        check_peer_addresses_lem seen peer.name peer.addresses checked
            (concat_map (λ p. p.addresses) peers) addresses,
        (fresh, unseen),
        (apart, distinct),
      )

check_gateways_lem :
    (families : List ℕ) (gateways : List Interface)
    → check_gateways families gateways ≡ ok tt
    → Fresh families (versions gateways)
      × Distinct (versions gateways)
      × All (λ g. (is_multicast (ip g) ≡ false) × (ip g ≢ (network g).network_address)) gateways
unfolding check_gateways
check_gateways_lem families [] h = (tt, tt, tt)
check_gateways_lem families (g ∷ gateways) h =
    let (fresh, distinct, unicast) =
      check_gateways_lem (g.version ∷ families) gateways (ground arith) in
    let (apart, new) = Fresh-cons g.version families (versions gateways) fresh in
    ((ground arith, new), (apart, distinct), ((ground arith, λ p. ground arith), unicast))

-- The tunnel's address plan: one gateway for each family, and the peers' addresses inside the
-- gateways' networks, no gateway among them, no two of them equal, under distinct peer names.
pub record IsIsolated (w : WireGuardConfig) : Type 0 where
  pub bound : w.bind_addresses ≢ []
  pub distinct_binds : Distinct w.bind_addresses
  pub one_gateway_per_family : Distinct (versions w.gateway_addresses)
  pub unicast_gateways :
      All
        (λ g. (is_multicast (ip g) ≡ false) × (ip g ≢ (network g).network_address))
        w.gateway_addresses
  pub inside : All (IsInside w.gateway_addresses) (concat_map (λ p. p.addresses) w.peers)
  pub distinct_addresses : Distinct (map ip (concat_map (λ p. p.addresses) w.peers))
  pub distinct_names : Distinct (map (λ p. p.name) w.peers)

-- If `validate_network` accepts, there are bind addresses and no two are equal; each family has one
-- gateway at most, which is no multicast address and not its network's own; every peer's address is
-- inside the network of the gateway of its family; no two peers' addresses and no two peers' names
-- are equal.
pub validate_network-IsIsolated : (w : WireGuardConfig) → validate_network w ≡ ok tt → IsIsolated w
unfolding validate_network
validate_network-IsIsolated w h =
    let bound : is_empty w.bind_addresses ≡ false = ground arith in
    let unique : is_unique w.bind_addresses ≡ true = ground arith in
    let gateways : check_gateways [] w.gateway_addresses ≡ ok tt = ground arith in
    let peers : check_peers w.gateway_addresses [] [] w.peers ≡ ok tt = ground arith in
    let (new, one, gateway_unicast) = check_gateways_lem [] w.gateway_addresses gateways in
    let ((insides, fresh, distinct), fresh_names, names) =
      check_peers_lem w.gateway_addresses [] [] w.peers peers in
    record {
      bound = is_empty-ne-nil w.bind_addresses bound;
      distinct_binds = is_unique-Distinct w.bind_addresses unique;
      one_gateway_per_family = one;
      unicast_gateways = gateway_unicast;
      inside = insides;
      distinct_addresses = distinct;
      distinct_names = names;
    }
