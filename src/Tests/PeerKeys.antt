-- ===== src/Tests/PeerKeys.antt =====
-- Changes of the WireGuard keys of one declared peer.
use shuttle_gate.Render.{lines_text, endpoint, peer_allowed_routes}
use shuttle_gate.Net.{bracketed}
use shuttle_gate.Config.Project.{effective_routes}
use shuttle_gate.Base.{
  join, show, sym, ap, ◌∙◌, subst, String, ◌<>◌, ℕ, ◌≡◌, ◌≢◌, refl, Option, some, [], ◌∷◌,
  string_eq, nat_eq, any, keep, contains, if◌then◌else◌,
}
use shuttle_gate.Errors.{Result, ok, err}
use shuttle_gate.KeyState.{
  load_server_keys, KeyPair, PeerEntry, peer_directory, Peers, Snapshot, complete, WgRunner,
  new_file, no_keys, peers_of, peer_dir, server_dir, key_pair_status, peer_key_status,
  generate_key_pair, generate_preshared_key,
}
use shuttle_gate.KeyState.Generate.{generate_selected, with_peer_keys}
use shuttle_gate.KeyState.Current.{IsShort, validate_phone_snapshot-render_phone_configs}
use shuttle_gate.KeyState.Phone.{phone_artifacts, render_phone_configs, validate_phone_snapshot}
use shuttle_gate.KeyState.Rotate.{rotate_selected}
use shuttle_gate.KeyState.Frame.{keys_of}
use shuttle_gate.KeyState.Kept.{generate_selected-keys_of, rotate_selected-keys_of}
use shuttle_gate.KeyState.Prune.{
  prune_children, is_refused, unexpected_peer, orphan_names, prune_children-keep,
}
use shuttle_gate.Tests.Configuration.{text, peer, config}

abbrev pub key_a : String
key_a = "aaaaaaaaaaaaaaaaaaaaaaaaaaaaaaaaaaaaaaaaaaa="

abbrev key_b : String
key_b = "bbbbbbbbbbbbbbbbbbbbbbbbbbbbbbbbbbbbbbbbbbb="

abbrev pub wg : WgRunner
wg = record { genkey = λ n. ok (key_a <> "\n"); pubkey = λ s. ok key_b; genpsk = λ n. ok key_b }

abbrev pub decoded_length : String → Option ℕ
decoded_length s = some 32

abbrev pub hash : String → String
hash s = s

-- The server has keys and the peer has none.
abbrev snapshot : Snapshot
snapshot = record {
  server = some (record {
    private_key = some (new_file key_a 0o600);
    public_key = some (new_file key_b 0o644);
  });
  peers = some (("old", peer_directory no_keys) ∷ []);
}

abbrev result_of : {T : Type 0} → Result (T × Snapshot) → Snapshot
result_of (ok (t, s)) = s
result_of (err e) = snapshot

abbrev pub generated : Snapshot
generated =
    result_of (generate_selected text hash hash decoded_length wg config (peer ∷ []) snapshot)

generates :
    generate_selected text hash hash decoded_length wg config (peer ∷ []) snapshot
    ≡ ok (peer.name ∷ [], generated)
unfolding generate_selected
generates = refl

abbrev rotated : Snapshot
rotated =
    result_of
      (rotate_selected text hash hash decoded_length wg config (peer ∷ []) peer.name snapshot)

rotates :
    rotate_selected text hash hash decoded_length wg config (peer ∷ []) peer.name snapshot
    ≡ ok (tt, rotated)
unfolding rotate_selected
rotates = refl

-- Now that the peer is complete, a second run makes nothing and keeps its keys.
abbrev again : Snapshot
again = result_of (generate_selected text hash hash decoded_length wg config (peer ∷ []) generated)

generates_again :
    generate_selected text hash hash decoded_length wg config (peer ∷ []) generated ≡ ok ([], again)
unfolding generate_selected
generates_again = refl

generated-complete :
    (key_pair_status (server_dir generated) ≡ complete)
    × (peer_key_status (peer_dir peer.name (peers_of generated)) ≡ complete)
unfolding generate_selected
generated-complete = (refl, refl)

generate_selected-keys_of_example :
    (again.server ≡ generated.server)
    × (keys_of (peer_dir peer.name (peers_of again))
        ≡ keys_of (peer_dir peer.name (peers_of generated)))
generate_selected-keys_of_example = (
  (generate_selected-keys_of text hash hash decoded_length wg config (peer ∷ []) generated again []
        generates_again).0
      generated-complete.0,
  (generate_selected-keys_of text hash hash decoded_length wg config (peer ∷ []) generated again []
        generates_again).1
      peer.name generated-complete.1,
)

rotate_selected-keys_of_example :
    (rotated.server ≡ snapshot.server)
    × ((k : String)
        → k ≢ peer.name
        → peer_dir k (peers_of rotated) ≡ peer_dir k (peers_of snapshot))
    × ((pair : KeyPair) × (preshared : String) × (generate_key_pair decoded_length wg 0 ≡ ok pair)
        × (generate_preshared_key decoded_length wg 0 ≡ ok preshared)
        × (keys_of (peer_dir peer.name (peers_of rotated))
            ≡ keys_of (with_peer_keys pair preshared no_keys)))
rotate_selected-keys_of_example =
    rotate_selected-keys_of text hash hash decoded_length wg config peer snapshot rotated rotates

-- One child is declared and one is not.
abbrev children : Peers
children = ("phone", peer_directory no_keys) ∷ ("old", peer_directory no_keys) ∷ []

prune_children-keep_example : prune_children ("phone" ∷ []) children ≡ (
    if any (is_refused ("phone" ∷ [])) children
    then err unexpected_peer
    else ok (
      orphan_names ("phone" ∷ []) children,
      keep (λ (entry : String × PeerEntry). contains ("phone" ∷ []) entry.0) children,
    ))
prune_children-keep_example = prune_children-keep ("phone" ∷ []) children

abbrev server_pair : KeyPair
server_pair = record { private = key_a; public = key_b }

abbrev artifacts_or_none : Result (String × String) → String × String
artifacts_or_none (ok a) = a
artifacts_or_none (err e) = ("", "")

abbrev artifacts : String × String
artifacts =
    artifacts_or_none
      (phone_artifacts text hash hash decoded_length config generated peer server_pair)

loads : load_server_keys decoded_length generated ≡ ok server_pair
unfolding load_server_keys generate_selected
loads = refl

makes :
    phone_artifacts text hash hash decoded_length config generated peer server_pair ≡ ok artifacts
unfolding phone_artifacts generate_selected
makes = refl

artifacts-IsShort : IsShort artifacts
unfolding phone_artifacts generate_selected lines_text join show endpoint bracketed
    peer_allowed_routes effective_routes
artifacts-IsShort = (refl, refl)

ok_injective : {A : Type 0} {a b : A} → ok a ≡ ok b → a ≡ b
ok_injective h = cc

only-IsShort :
    (server : KeyPair) (made : String × String)
    → load_server_keys decoded_length generated ≡ ok server
    → phone_artifacts text hash hash decoded_length config generated peer server ≡ ok made
    → IsShort made
only-IsShort server made h k =
    let same : server_pair ≡ server = ok_injective (sym loads ∙ h) in
    let same_made : artifacts ≡ made = ok_injective (
      sym makes
      ∙ ap (phone_artifacts text hash hash decoded_length config generated peer) same
      ∙ k) in
    subst IsShort same_made artifacts-IsShort

abbrev snapshot_or : Result Snapshot → Snapshot
snapshot_or (ok s) = s
snapshot_or (err e) = snapshot

abbrev rendered : Snapshot
rendered =
    snapshot_or (render_phone_configs text hash hash decoded_length config generated (peer ∷ []))

renders :
    render_phone_configs text hash hash decoded_length config generated (peer ∷ []) ≡ ok rendered
unfolding render_phone_configs generate_selected
renders = refl

validate_phone_snapshot-render_phone_configs_example :
    validate_phone_snapshot text hash hash decoded_length config rendered (peer ∷ []) ≡ ok tt
validate_phone_snapshot-render_phone_configs_example =
    validate_phone_snapshot-render_phone_configs text hash hash decoded_length config generated
      rendered peer renders only-IsShort
