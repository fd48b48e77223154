-- ===== src/Config/Peer.antt =====
-- `PeerConfig` of config.py
use shuttle_gate.Base.{
  String, ◌<>◌, ℕ, ◌≡◌, ◌≢◌, Bool, true, not, ◌||◌, List, [], ◌∷◌, arith, contains, matches,
  is_lower, is_digit, codes, ◌==◌, ◌!=◌, nat_eq, if◌then◌else◌, show, is_empty, All, Distinct,
  Fresh, Fresh-cons, ◌≤◌, map,
}
use shuttle_gate.Errors.{value_error, Result, ok, err, ◌>>◌, raise_if}
use shuttle_gate.Net.{Interface, width}
use shuttle_gate.Config.{PeerConfig, field_in_range}

-- PEER_PATTERN and PROJECT_PATTERN: [a-z][a-z0-9-]{0,62}
unfoldable pub is_label : String → Bool
unfolding matches nat_eq
is_label s = matches is_lower (λ c. is_lower c || is_digit c || c == b'-') 62 (codes s)

-- The loop of `validate_addresses`. `families` holds the IP versions that were seen.
unfoldable pub check_addresses : List ℕ → List Interface → Result (Unit {0})
check_addresses families [] = ok tt
check_addresses families (interface ∷ rest) =
    let more = check_addresses (interface.version ∷ families) rest in
    if contains families interface.version
    then err (value_error "a peer may have at most one address per IP family")
    else if interface.prefixlen != width interface.version
    then err (value_error ("peer address must use /" <> show (width interface.version)))
    else more

unfoldable pub validate_peer : PeerConfig → Result (Unit {0})
unfolding is_label field_in_range check_addresses
validate_peer peer = do
  raise_if (not (is_label peer.name)) (value_error "must match [a-z][a-z0-9-]{0,62}")
  field_in_range 0 65535 peer.persistent_keepalive_seconds
  raise_if (is_empty peer.addresses)
      (value_error "addresses must contain at least one IPv4 or IPv6 address")
  check_addresses [] peer.addresses

abbrev pub versions : List Interface → List ℕ
versions = map (λ i. i.version)

check_addresses_lem :
    (families : List ℕ) (interfaces : List Interface)
    → check_addresses families interfaces ≡ ok tt
    → Fresh families (versions interfaces)
      × Distinct (versions interfaces)
      × All (λ i. i.prefixlen ≡ width i.version) interfaces
unfolding check_addresses
check_addresses_lem families [] h = (tt, tt, tt)
check_addresses_lem families (i ∷ interfaces) h =
    let (fresh, distinct, wide) =
      check_addresses_lem (i.version ∷ families) interfaces (ground arith) in
    let (apart, new) = Fresh-cons i.version families (versions interfaces) fresh in
    ((ground arith, new), (apart, distinct), (ground arith, wide))

-- A peer that is accepted has a safe name, a bounded keepalive and, for each family, at most one
-- address, of that address alone.
pub record IsPeer (peer : PeerConfig) : Type 0 where
  pub labelled : is_label peer.name ≡ true
  pub bounded : peer.persistent_keepalive_seconds ≤ 65535
  pub addressed : peer.addresses ≢ []
  pub one_per_family : Distinct (versions peer.addresses)
  pub single : All (λ i. i.prefixlen ≡ width i.version) peer.addresses

-- If `validate_peer` accepts, the peer has a safe name, a keepalive up to 65535 and some address; no
-- two of its addresses are of one family, and each has the full prefix length.
pub validate_peer-IsPeer : (peer : PeerConfig) → validate_peer peer ≡ ok tt → IsPeer peer
unfolding validate_peer
validate_peer-IsPeer peer h =
    let (families, distinct, wide) = check_addresses_lem [] peer.addresses (ground arith) in
    record {
      labelled = ground arith;
      bounded = ground arith;
      addressed = λ p. ground arith;
      one_per_family = distinct;
      single = wide;
    }
