-- ===== src/KeyState/Kept.antt =====
-- What `generate_missing_keys` and `rotate_peer` do to the keys that there are.
use shuttle_gate.Base.{
  String, ℕ, ◌≡◌, ◌≢◌, refl, sym, ap, ◌∙◌, subst, false, Option, none, some, List, [], ◌∷◌, ◌==◌,
  string_eq, arith, eq_self,
}
use shuttle_gate.Errors.{ok, >>=-eq-ok}
use shuttle_gate.Net.{AddressText}
use shuttle_gate.Config.{ProjectConfig, PeerConfig}
use shuttle_gate.KeyState.{
  KeyPair, Peers, Snapshot, Status, complete, partial, missing, WgRunner, peers_of, peer_dir,
  server_dir, no_keys, change_peer, peer_key_status, key_pair_status, generate_key_pair,
  generate_preshared_key, validate_selected_keys,
}
use shuttle_gate.KeyState.Phone.{render_phone_configs}
use shuttle_gate.KeyState.Generate.{
  with_peer_keys, with_server_keys, generate_server, generate_peer, generate_peers,
  generate_selected,
}
use shuttle_gate.KeyState.Rotate.{rotate_selected}
use shuttle_gate.KeyState.Frame.{
  Keeps, keys_of, names_of, peer_dir-change_peer, render_phone_configs-Keeps,
}

module _ (decoded_length : String → Option ℕ) (wg : WgRunner) where
  generate_peer-complete :
      (n : ℕ) (peers : Peers) (name : String) (status : Status) (r : ℕ × Peers) (k : String)
      → peer_key_status (peer_dir name peers) ≡ status
      → generate_peer decoded_length wg n peers name status ≡ ok r
      → peer_key_status (peer_dir k peers) ≡ complete
      → peer_dir k r.1 ≡ peer_dir k peers
  unfolding generate_peer
  generate_peer-complete n peers name complete r k seen h c =
      let same : peers ≡ r.1 = cc in ap (peer_dir k) (sym same)
  generate_peer-complete n peers name partial r k seen h c = cc
  generate_peer-complete n peers name missing r k seen h c =
      let (pair, e₁, e₂) = >>=-eq-ok (generate_key_pair decoded_length wg n) _ h in
      let (preshared, e₃, e₄) = >>=-eq-ok (generate_preshared_key decoded_length wg n) _ e₂ in
      let (changed, e₅, e₆) =
        >>=-eq-ok (change_peer name (with_peer_keys pair preshared) peers) _ e₄ in
      let same : changed ≡ r.1 = cc in
      let written = peer_dir-change_peer name k (with_peer_keys pair preshared) peers changed e₅ in
      let apart : (name == k) ≡ false =
        ground (arith, λ (e : name ≡ k). ap (λ x. peer_key_status (peer_dir x peers)) e) in
      ap (peer_dir k) (sym same) ∙ (rw apart at written)

  generate_peers-complete :
      (n : ℕ) (peers : Peers) (selected : List PeerConfig) (r : List String × Peers) (k : String)
      → generate_peers decoded_length wg n peers selected ≡ ok r
      → peer_key_status (peer_dir k peers) ≡ complete
      → peer_dir k r.1 ≡ peer_dir k peers
  unfolding generate_peers
  generate_peers-complete n peers [] r k h c =
      let same : peers ≡ r.1 = cc in ap (peer_dir k) (sym same)
  generate_peers-complete n peers (peer ∷ rest) r k h c =
      let (first, e₁, e₂) =
        >>=-eq-ok
          (generate_peer decoded_length wg n peers peer.name
            (peer_key_status (peer_dir peer.name peers)))
          _ h in
      let (others, e₃, e₄) =
        >>=-eq-ok (generate_peers decoded_length wg first.0 first.1 rest) _ e₂ in
      let kept : peer_dir k first.1 ≡ peer_dir k peers =
        generate_peer-complete n peers peer.name _ first k refl e₁ c in
      let later : peer_dir k others.1 ≡ peer_dir k first.1 =
        generate_peers-complete first.0 first.1 rest others k e₃ (ap peer_key_status kept ∙ c) in
      let same : others.1 ≡ r.1 = cc in ap (peer_dir k) (sym same) ∙ later ∙ kept

  generate_server-complete :
      (s : Snapshot) (status : Status) (r : List String × Snapshot)
      → generate_server decoded_length wg s status ≡ ok r
      → (r.1.peers ≡ s.peers) × (status ≡ complete → r.1.server ≡ s.server)
  unfolding generate_server
  generate_server-complete s complete r h =
      let same : s ≡ r.1 = cc in (ap (λ t. t.peers) (sym same), λ c. ap (λ t. t.server) (sym same))
  generate_server-complete s partial r h = cc
  generate_server-complete s missing r h =
      let (pair, e₁, e₂) = >>=-eq-ok (generate_key_pair decoded_length wg 0) _ h in
      let same : with_server_keys pair s ≡ r.1 = cc in (ap (λ t. t.peers) (sym same), λ c. cc)

same_peers : (s s' : Snapshot) → s'.peers ≡ s.peers → peers_of s' ≡ peers_of s
same_peers s s' e = ap peers_or_none e
  where
    peers_or_none : Option Peers → Peers
    peers_or_none p = elim p [ none ↦ [] | some peers ↦ peers ]

module _ (addresses : AddressText) (sha256 json_text : String → String)
    (decoded_length : String → Option ℕ) (wg : WgRunner) where
  -- Where the generation of missing keys succeeds, it leaves the server's directory as it is if its
  -- pair is complete, and the three key files of every peer that has all three.
  pub generate_selected-keys_of :
      (config : ProjectConfig) (selected : List PeerConfig) (s s' : Snapshot)
      (created : List String)
      → generate_selected addresses sha256 json_text decoded_length wg config selected s
        ≡ ok (created, s')
      → (key_pair_status (server_dir s) ≡ complete → s'.server ≡ s.server)
        × ((k : String)
            → peer_key_status (peer_dir k (peers_of s)) ≡ complete
            → keys_of (peer_dir k (peers_of s')) ≡ keys_of (peer_dir k (peers_of s)))
  unfolding generate_selected
  generate_selected-keys_of config selected s s' created h =
      let (first, e₁, e₂) =
        >>=-eq-ok (generate_server decoded_length wg s (key_pair_status (server_dir s))) _ h in
      let (made, e₃, e₄) =
        >>=-eq-ok (generate_peers decoded_length wg 1 (peers_of first.1) selected) _ e₂ in
      let middle : Snapshot = record first.1 { peers = some made.1 } in
      let (u, e₅, e₆) = >>=-eq-ok (validate_selected_keys decoded_length middle selected) _ e₄ in
      let (end, e₇, e₈) =
        >>=-eq-ok
          (render_phone_configs addresses sha256 json_text decoded_length config middle selected) _
          e₆ in
      let same : end ≡ s' = cc in
      let kept =
        subst (λ t. Keeps (names_of selected) middle t) same
          (render_phone_configs-Keeps addresses sha256 json_text decoded_length config middle
            selected end e₇) in
      let server =
        generate_server-complete decoded_length wg s (key_pair_status (server_dir s)) first e₁ in
      let before = same_peers s first.1 server.0 in
      (
        λ c. kept.server ∙ server.1 c,
        λ k c.
            kept.keys k
            ∙ ap keys_of (
                generate_peers-complete decoded_length wg 1 (peers_of first.1) selected made k e₃
                  (ap (λ peers. peer_key_status (peer_dir k peers)) before ∙ c)
                ∙ ap (peer_dir k) before),
      )

  -- Where the rotation of a peer's keys succeeds, the server's directory and those of all other peers
  -- are as before, and the peer has the keys that were generated, all three of them.
  pub rotate_selected-keys_of :
      (config : ProjectConfig) (peer : PeerConfig) (s s' : Snapshot)
      → rotate_selected addresses sha256 json_text decoded_length wg config (peer ∷ []) peer.name s
        ≡ ok (tt, s')
      → (s'.server ≡ s.server)
        × ((k : String) → k ≢ peer.name → peer_dir k (peers_of s') ≡ peer_dir k (peers_of s))
        × ((pair : KeyPair) × (preshared : String) × (generate_key_pair decoded_length wg 0
              ≡ ok pair)
            × (generate_preshared_key decoded_length wg 0 ≡ ok preshared)
            × (keys_of (peer_dir peer.name (peers_of s'))
                ≡ keys_of (with_peer_keys pair preshared no_keys)))
  unfolding rotate_selected
  rotate_selected-keys_of config peer s s' h =
      let (pair, e₁, e₂) = >>=-eq-ok (generate_key_pair decoded_length wg 0) _ h in
      let (preshared, e₃, e₄) = >>=-eq-ok (generate_preshared_key decoded_length wg 0) _ e₂ in
      let (changed, e₅, e₆) =
        >>=-eq-ok (change_peer peer.name (with_peer_keys pair preshared) (peers_of s)) _ e₄ in
      let (end, e₇, e₈) =
        >>=-eq-ok
          (render_phone_configs addresses sha256 json_text decoded_length config
            (record s { peers = some changed }) (peer ∷ []))
          _ e₆ in
      let same : end ≡ s' = cc in
      let kept =
        subst (λ t. Keeps (peer.name ∷ []) (record s { peers = some changed }) t) same
          (render_phone_configs-Keeps addresses sha256 json_text decoded_length config
            (record s { peers = some changed }) (peer ∷ []) end e₇) in
      let written = λ (k : String).
        peer_dir-change_peer peer.name k (with_peer_keys pair preshared) (peers_of s) changed e₅ in
      (
        kept.server,
        λ k apart. kept.others k (ground arith) ∙ ground (arith, written k),
        (
          pair,
          preshared,
          e₁,
          e₃,
          kept.keys peer.name ∙ ap keys_of (rw (eq_self peer.name) at (written peer.name)),
        ),
      )
