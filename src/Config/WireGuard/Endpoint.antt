-- ===== src/Config/WireGuard/Endpoint.antt =====
-- `validate_bind_scopes` and `validate_endpoint_host` of config.py, the latter for SSH hosts too
use shuttle_gate.Base.{
  String, ℕ, Bool, false, not, ◌||◌, ◌&&◌, List, [], ◌∷◌, ◌++◌, Option, none, some, all, length,
  ltb, leb, codes, is_alnum, matches, ◌==◌, nat_eq, string_eq, if◌then◌else◌,
}
use mathlib.Core.List.{reverse, get_last?}
use shuttle_gate.Errors.{value_error, Result, ok, ◌>>◌, raise_if, run_if}
use shuttle_gate.Net.{Address, AddressText, is_multicast, is_unspecified, is_link_local}

-- INTERFACE_PATTERN: [A-Za-z0-9_.-]{1,15}
abbrev is_interface_code : ℕ → Bool
is_interface_code c = is_alnum c || c == b'_' || c == b'.' || c == b'-'

unfoldable pub is_interface_name : String → Bool
unfolding matches nat_eq
is_interface_name s = matches is_interface_code is_interface_code 14 (codes s)

-- The tests on the scope of one IPv6 address, with the messages of the caller.
unfoldable pub check_scope : String → String → String → Address → Result (Unit {0})
unfolding is_interface_name is_link_local
check_scope required misplaced unsafe a = elim a.scope [
  | none ↦ raise_if (is_link_local a) (value_error required)
  | some scope ↦ do
    raise_if (not (is_link_local a)) (value_error misplaced)
    raise_if (not (is_interface_name scope)) (value_error unsafe)
]

unfoldable pub validate_bind_scopes : List Address → Result (Unit {0})
unfolding check_scope nat_eq
validate_bind_scopes [] = ok tt
validate_bind_scopes (a ∷ rest) = do
  run_if (a.version == 6) (
      check_scope "IPv6 link-local bind addresses require a %INTERFACE scope"
        "an interface scope is valid only for IPv6 link-local binds"
        "IPv6 bind scope must be a safe Linux interface name" a)
  validate_bind_scopes rest

-- HOST_LABEL_PATTERN: [A-Za-z0-9](?:[A-Za-z0-9-]{0,61}[A-Za-z0-9])?
unfoldable pub is_host_label : List ℕ → Bool
unfolding matches nat_eq
is_host_label cs = matches is_alnum (λ c. is_alnum c || c == b'-') 62 cs && ends_well (get_last? cs)
  where
    ends_well : Option ℕ → Bool
    ends_well none = false
    ends_well (some c) = is_alnum c

-- text.split(".")
abbrev split_dots : List ℕ → List ℕ → List (List ℕ)
split_dots word [] = word ∷ []
split_dots word (c ∷ cs) =
    let new = word ∷ split_dots [] cs in
    let more = split_dots (word ++ c ∷ []) cs in if c == b'.' then new else more

abbrev drop_dots : List ℕ → List ℕ
drop_dots [] = []
drop_dots (c ∷ cs) = let rest = drop_dots cs in if c == b'.' then rest else c ∷ cs

-- text.rstrip(".")
abbrev strip_dots : List ℕ → List ℕ
strip_dots cs = reverse (drop_dots (reverse cs))

unfoldable pub is_host_name : String → Bool
unfolding is_host_label nat_eq
is_host_name s = all is_host_label (split_dots [] (strip_dots (codes s)))

-- Whitespace of ASCII, which str.strip removes.
abbrev is_space : ℕ → Bool
is_space c = c == 32 || (leb 9 c && leb c 13) || (leb 28 c && leb c 31)

abbrev starts_with_space : List ℕ → Bool
starts_with_space [] = false
starts_with_space (c ∷ _) = is_space c

-- `not host or host != value or len(host) > 253` for `host = value.strip()`
unfoldable pub is_padded_or_long : String → Bool
unfolding nat_eq string_eq
is_padded_or_long s =
    s == ""
    || starts_with_space (codes s)
    || starts_with_space (reverse (codes s))
    || ltb 253 (length (codes s))

module _ (text : AddressText) where
  unfoldable pub validate_endpoint_host : String → Result String
  unfolding is_host_name is_padded_or_long check_scope nat_eq
  validate_endpoint_host value = do
    raise_if (is_padded_or_long value)
        (value_error "must be a non-empty host without surrounding whitespace")
    elim (text.parse value) [
      | none ↦ do
        raise_if (not (is_host_name value))
            (value_error "must be an IPv4/IPv6 address or valid DNS hostname")
        ok value
      | some address ↦ do
        raise_if (is_unspecified address || is_multicast address)
            (value_error "must be an explicit unicast address")
        run_if (address.version == 6) (
            check_scope "IPv6 link-local addresses require a %INTERFACE scope"
              "an interface scope is valid only for IPv6 link-local addresses"
              "IPv6 scope must be a safe interface name" address)
        ok value
    ]
