-- ===== src/Config/Ssh.antt =====
-- `SSHConfig` of config.py
use shuttle_gate.Base.{
  String, ◌<>◌, ℕ, Bool, false, not, ◌||◌, ◌&&◌, List, [], ◌∷◌, all, contains, codes, matches,
  is_alnum, is_lower, is_upper, is_printable, length, leb, ◌==◌, nat_eq, string_eq, if◌then◌else◌,
}
use shuttle_gate.Errors.{value_error, Result, ◌>>=◌, ◌>>◌, raise_if}
use shuttle_gate.FilePath.{FilePath, path_text}
use shuttle_gate.Net.{AddressText}
use shuttle_gate.Config.{SshConfig, field_in_range}
use shuttle_gate.Config.WireGuard.Endpoint.{validate_endpoint_host}

-- USER_PATTERN: [A-Za-z_][A-Za-z0-9_.-]{0,63}
unfoldable pub is_user : String → Bool
unfolding matches nat_eq
is_user s =
    matches (λ c. is_lower c || is_upper c || c == b'_')
      (λ c. is_alnum c || c == b'_' || c == b'.' || c == b'-') 63 (codes s)

-- PYTHON_NAME_PATTERN: [A-Za-z0-9_][A-Za-z0-9_.+-]{0,254}
unfoldable pub is_python_name : String → Bool
unfolding matches nat_eq
is_python_name s =
    matches (λ c. is_alnum c || c == b'_')
      (λ c. is_alnum c || c == b'_' || c == b'.' || c == b'+' || c == b'-') 254 (codes s)

abbrev is_path_code : ℕ → Bool
is_path_code c = is_alnum c || c == b'_' || c == b'.' || c == b'/' || c == b'+' || c == b'-'

-- text.split("/")
abbrev split_slashes : String → String → List String
split_slashes word String.[] = word ∷ []
split_slashes word (String.◌∷◌ c s) =
    let new = word ∷ split_slashes "" s in
    let more = split_slashes (word <> String.◌∷◌ c "") s in
    if String.◌∷◌ c "" == "/" then new else more

-- `path_parts` are there, and none is "", "." or "..".
abbrev are_plain_parts : List String → Bool
are_plain_parts [] = false
are_plain_parts (first ∷ []) = false
are_plain_parts (first ∷ parts) = all (λ part. not (contains ("" ∷ "." ∷ ".." ∷ []) part)) parts

-- PYTHON_PATH_PATTERN, ^/[A-Za-z0-9_./+-]{1,254}$, and the test on the parts
unfoldable pub is_python_path : String → Bool
unfolding matches nat_eq string_eq
is_python_path s =
    matches (λ c. c == b'/') is_path_code 254 (codes s)
    && leb 2 (length (codes s))
    && are_plain_parts (split_slashes "" s)

-- `value.parts[0] == "secrets"` and at least two parts of a relative path.
unfoldable pub is_below_secrets : List String → Bool
unfolding string_eq
is_below_secrets (top ∷ below ∷ rest) = top == "secrets"
is_below_secrets _ = false

unfoldable pub validate_secret_path : FilePath → Result (Unit {0})
unfolding is_below_secrets path_text string_eq
validate_secret_path value = do
  raise_if (not (is_printable (path_text value)))
      (value_error "must contain only printable path characters")
  raise_if (value.absolute || contains value.names "..")
      (value_error "must be an instance-relative path below secrets/")
  raise_if (not (is_below_secrets value.names))
      (value_error "must be located below the instance secrets/ directory")

module _ (text : AddressText) where
  unfoldable pub validate_ssh : SshConfig → Result (Unit {0})
  unfolding is_user is_python_name is_python_path
  validate_ssh s = do
    host ← validate_endpoint_host text s.host
    raise_if (not (is_user s.user)) (value_error "contains unsupported characters")
    field_in_range 1 65535 s.port
    validate_secret_path s.identity_file
    validate_secret_path s.known_hosts_file
    raise_if (not (is_python_name s.remote_python) && not (is_python_path s.remote_python))
        (value_error "must be a safe executable name or absolute path without arguments")
    field_in_range 1 300 s.connect_timeout_seconds
    field_in_range 1 300 s.server_alive_interval_seconds
    field_in_range 1 20 s.server_alive_count_max
