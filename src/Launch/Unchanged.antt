-- ===== src/Launch/Unchanged.antt =====
-- `matches_manifest` of launch.py: which of the recorded inputs an accepted launch shares with the
-- current ones.
use shuttle_gate.Base.{
  String, ◌≡◌, ap, ◌∙◌, true, false, Option, none, some, string_eq, nat_eq, list_eq, option_eq,
  arith,
}
use shuttle_gate.Errors.{ok, >>=-eq-ok}
use shuttle_gate.Net.{AddressText}
use shuttle_gate.Config.{ProjectConfig}
use shuttle_gate.SshKey.{StoredFile}
use shuttle_gate.Launch.{
  Manifest, LaunchInputs, file_digest, manifest_of, current_manifest, launched, matches_manifest,
}

matches_manifest-digests :
    (addresses : AddressText) (config config' : ProjectConfig) (generation' : Option String)
    (name launch_id instance_id unit_name a b c d a' b' c' d' : String)
    → matches_manifest
        (launched launch_id instance_id unit_name
          (manifest_of addresses config (some name) a b c d))
        (manifest_of addresses config' generation' a' b' c' d')
      ≡ true
    → (a ≡ a') × (b ≡ b') × (c ≡ c') × (d ≡ d') × (generation' ≡ some name)
unfolding matches_manifest
matches_manifest-digests addresses config config' none name launch_id instance_id unit_name a b c d
      a' b' c' d' h =
    ground arith
matches_manifest-digests addresses config config' (some other) name launch_id instance_id unit_name
      a b c d a' b' c' d' h =
    ground arith

module _ (addresses : AddressText) (sha256 : String → String) where
  -- If the manifest of some inputs and of a generation matches that of later ones, then the generation
  -- is the same, and the later files have the digests of the former ones.
  pub matches_manifest-current_manifest :
      (config config' : ProjectConfig) (name : String) (generation' : Option String)
      (inputs inputs' : LaunchInputs)
      (identity known_hosts identity' known_hosts' : Option StoredFile)
      (launch_id instance_id unit_name : String) (v v' : Manifest)
      → current_manifest sha256 addresses config (some name) inputs identity known_hosts ≡ ok v
      → current_manifest sha256 addresses config' generation' inputs' identity' known_hosts' ≡ ok v'
      → matches_manifest (launched launch_id instance_id unit_name v) v' ≡ true
      → (generation' ≡ some name)
        × (file_digest sha256 inputs'.configuration "configuration" true
            ≡ file_digest sha256 inputs.configuration "configuration" true)
        × (file_digest sha256 identity' "SSH identity" true
            ≡ file_digest sha256 identity "SSH identity" true)
        × (file_digest sha256 known_hosts' "SSH known-hosts" false
            ≡ file_digest sha256 known_hosts "SSH known-hosts" false)
        × (file_digest sha256 inputs'.application "application bundle" true
            ≡ file_digest sha256 inputs.application "application bundle" true)
  unfolding current_manifest
  matches_manifest-current_manifest config config' name generation' inputs inputs' identity
        known_hosts identity' known_hosts' launch_id instance_id unit_name v v' h h' m =
      let (a, a₁, h₁) =
        >>=-eq-ok (file_digest sha256 inputs.configuration "configuration" true) _ h in
      let (b, b₁, h₂) = >>=-eq-ok (file_digest sha256 identity "SSH identity" true) _ h₁ in
      let (c, c₁, h₃) = >>=-eq-ok (file_digest sha256 known_hosts "SSH known-hosts" false) _ h₂ in
      let (d, d₁, h₄) =
        >>=-eq-ok (file_digest sha256 inputs.application "application bundle" true) _ h₃ in
      let (a', a₂, k₁) =
        >>=-eq-ok (file_digest sha256 inputs'.configuration "configuration" true) _ h' in
      let (b', b₂, k₂) = >>=-eq-ok (file_digest sha256 identity' "SSH identity" true) _ k₁ in
      let (c', c₂, k₃) = >>=-eq-ok (file_digest sha256 known_hosts' "SSH known-hosts" false) _ k₂ in
      let (d', d₂, k₄) =
        >>=-eq-ok (file_digest sha256 inputs'.application "application bundle" true) _ k₃ in
      let made : manifest_of addresses config (some name) a b c d ≡ v = cc in
      let made' : manifest_of addresses config' generation' a' b' c' d' ≡ v' = cc in
      let (p, q, r, s, g) =
        matches_manifest-digests addresses config config' generation' name launch_id instance_id
          unit_name a b c d a' b' c' d'
          (ap
              (λ t.
                matches_manifest (launched launch_id instance_id unit_name t)
                  (manifest_of addresses config' generation' a' b' c' d'))
              made
            ∙ ap (matches_manifest (launched launch_id instance_id unit_name v)) made'
            ∙ m) in
      (g, cc (p), cc (q), cc (r), cc (s))
