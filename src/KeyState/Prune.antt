-- ===== src/KeyState/Prune.antt =====
-- `prune_orphaned_peers` of keys.py
use shuttle_gate.Base.{
  String, ◌<>◌, ℕ, ◌≡◌, refl, Bool, true, false, not, ◌&&◌, Option, none, some, List, [], ◌∷◌, map,
  any, keep, contains, is_empty, string_eq, codes, if◌then◌else◌, arith,
}
use shuttle_gate.Errors.{Error, state_error, Result, ok, err, ◌>>=◌, ◌>>◌}
use shuttle_gate.FilePath.Sorted.{lt_codes}
use shuttle_gate.Config.{ProjectConfig, PeerConfig}
use shuttle_gate.State.Mutate.{Mutation}
use shuttle_gate.KeyState.{
  PeerEntry, peer_directory, foreign, Peers, Snapshot, ServerDirectory, Status, complete, partial,
  missing, peers_of, peer_dir, peer_key_status, load_server_keys, load_peer_keys,
}

-- sorted
unfoldable pub insert_name : String → List String → List String
unfolding lt_codes
insert_name name [] = name ∷ []
insert_name name (other ∷ rest) =
    let later = other ∷ insert_name name rest in
    if lt_codes (codes other) (codes name) then later else name ∷ other ∷ rest

unfoldable pub sorted_names : List String → List String
unfolding insert_name
sorted_names [] = []
sorted_names (name ∷ rest) = insert_name name (sorted_names rest)

abbrev pub unexpected_peer : Error
unexpected_peer = state_error "refusing to prune unexpected peer state"

unfoldable pub prune_child : String → PeerEntry → List String × Peers → Result (List String × Peers)
prune_child name (peer_directory d) (removed, kept) = ok (name ∷ removed, kept)
prune_child name foreign pruned = err unexpected_peer

-- The loop over the children: the names that are removed and the entries that stay.
unfoldable pub prune_children : List String → Peers → Result (List String × Peers)
unfolding prune_child
prune_children declared [] = ok ([], [])
prune_children declared ((name, entry) ∷ rest) =
    let later = prune_children declared rest in
    if contains declared name
    then (later >>= λ pruned. ok (pruned.0, (name, entry) ∷ pruned.1))
    else (later >>= prune_child name entry)

abbrev declared_names : ProjectConfig → List String
declared_names config = map (λ (peer : PeerConfig). peer.name) config.wireguard.peers

unfoldable pub prune : ProjectConfig → Snapshot → Result (List String × Snapshot)
unfolding prune_children sorted_names
prune config s = by_peers s.peers
  where
    by_peers : Option Peers → Result (List String × Snapshot)
    by_peers none = ok ([], s)
    by_peers (some peers) = do
      (removed, kept) ← prune_children (declared_names config) peers
      ok (sorted_names removed, record s { peers = some kept })

module _ (decoded_length : String → Option ℕ) where
  abbrev check_available : Snapshot → String → Status → Result (Unit {0})
  check_available s name missing = ok tt
  check_available s name partial =
      err (state_error ("peer " <> (name <> " key state is partial; rotate it explicitly")))
  check_available s name complete = do keys ← load_peer_keys decoded_length s name; ok tt

  unfoldable pub check_all_available : Snapshot → List PeerConfig → Result (Unit {0})
  unfolding peer_key_status peer_dir load_peer_keys
  check_all_available s [] = ok tt
  check_all_available s (peer ∷ peers) = do
    check_available s peer.name (peer_key_status (peer_dir peer.name (peers_of s)))
    check_all_available s peers

  -- `_validate_available_keys`
  unfoldable pub validate_available_keys : ProjectConfig → Snapshot → Result (Unit {0})
  unfolding load_server_keys check_all_available
  validate_available_keys config s = do
    keys ← load_server_keys decoded_length s
    check_all_available s config.wireguard.peers

  unfoldable pub prune_orphaned_peers : ProjectConfig → Mutation ServerDirectory Peers (List String)
  unfolding prune validate_available_keys
  prune_orphaned_peers config = record {
    mutator = prune config;
    validator = validate_available_keys config;
    publish_if = some (λ removed. not (is_empty removed));
    operation = none;
  }

abbrev is_foreign : PeerEntry → Bool
is_foreign (peer_directory d) = false
is_foreign foreign = true

abbrev pub orphan_names : List String → Peers → List String
orphan_names declared peers =
    map (λ (entry : String × PeerEntry). entry.0)
      (keep (λ (entry : String × PeerEntry). not (contains declared entry.0)) peers)

abbrev pub is_refused : List String → String × PeerEntry → Bool
is_refused declared entry = not (contains declared entry.0) && is_foreign entry.1

-- Pruning removes exactly the directories of undeclared peers and keeps all others in their order,
-- or it raises, if an undeclared child is no directory.
pub prune_children-keep :
    (declared : List String) (peers : Peers)
    → prune_children declared peers ≡ (
        if any (is_refused declared) peers
        then err unexpected_peer
        else ok (
          orphan_names declared peers,
          keep (λ (entry : String × PeerEntry). contains declared entry.0) peers,
        ))
unfolding prune_children prune_child
prune_children-keep declared [] = refl
prune_children-keep declared ((name, peer_directory d) ∷ rest) =
    ground (arith, prune_children-keep declared rest)
prune_children-keep declared ((name, foreign) ∷ rest) =
    ground (arith, prune_children-keep declared rest)
