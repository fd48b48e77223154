-- ===== src/Runtime/PeerStatus.antt =====
-- `_wireguard_number` and `_peer_status` of runtime.py, on ASCII output of `wg show`.
use shuttle_gate.Base.{
  String, ◌<>◌, ℕ, ◌+◌, ◌-◌, ◌*◌, Bool, true, false, ◌&&◌, ◌||◌, Option, none, some, List, [], ◌∷◌,
  ◌++◌, ◌==◌, list_eq, string_eq, nat_eq, if◌then◌else◌, is_digit, codes, contains, is_empty,
}
use shuttle_gate.Errors.{runtime_failure, Result, ok, err, ◌>>=◌}

-- The characters that str.splitlines and int() know, below 128.
abbrev is_line_break : ℕ → Bool
is_line_break c = contains (10 ∷ 11 ∷ 12 ∷ 13 ∷ 28 ∷ 29 ∷ 30 ∷ []) c

abbrev is_space : ℕ → Bool
is_space c = is_line_break c || contains (9 ∷ 31 ∷ 32 ∷ []) c

-- text.split(separator)
unfoldable pub split : ℕ → List ℕ → List ℕ → List (List ℕ)
split separator word [] = word ∷ []
split separator word (c ∷ rest) =
    let new = word ∷ split separator [] rest in
    let more = split separator (word ++ c ∷ []) rest in if c == separator then new else more

-- text.splitlines(): "\r\n" is one break.
unfoldable pub split_lines : Bool → List ℕ → List ℕ → List (List ℕ)
split_lines after_return word [] = if is_empty word then [] else word ∷ []
split_lines after_return word (c ∷ rest) =
    let same = split_lines false word rest in
    let new = word ∷ split_lines (c == 13) [] rest in
    let more = split_lines false (word ++ c ∷ []) rest in
    if after_return && (c == 10) then same else if is_line_break c then new else more

-- The digits of int(), with single underscores between them.
abbrev digits : ℕ → Bool → List ℕ → Option ℕ
digits n after_digit [] = if after_digit then some n else none
digits n after_digit (c ∷ rest) =
    let number = digits (10 * n + (c - 48)) true rest in
    let gap = digits n false rest in
    if is_digit c then number else if after_digit && (c == 95) then gap else none

abbrev skip_spaces : List ℕ → List ℕ
skip_spaces [] = []
skip_spaces (c ∷ rest) = let shorter = skip_spaces rest in if is_space c then shorter else c ∷ rest

abbrev drop_last_spaces : List ℕ → List ℕ
drop_last_spaces [] = []
drop_last_spaces (c ∷ rest) =
    let shorter = drop_last_spaces rest in
    if is_space c && is_empty shorter then [] else c ∷ shorter

abbrev negative : Option ℕ → Option ℕ
negative none = none
negative (some n) = if n == 0 then some 0 else none

abbrev signed : List ℕ → Option ℕ
signed [] = none
signed (c ∷ rest) =
    if c == 45
    then negative (digits 0 false rest)
    else if c == 43
    then digits 0 false rest
    else digits 0 false (c ∷ rest)

-- int(text), if it is a number and not negative
unfoldable pub non_negative : List ℕ → Option ℕ
unfolding nat_eq
non_negative text = signed (skip_spaces (drop_last_spaces text))

unfoldable pub wireguard_number : List ℕ → String → Bool → Result ℕ
wireguard_number value label allow_off =
    if allow_off && (value == codes "off") then ok 0 else checked (non_negative value)
  where
    checked : Option ℕ → Result ℕ
    checked none = err (runtime_failure ("WireGuard reported an invalid " <> label))
    checked (some n) = ok n

pub record PeerRow : Type 0 where
  pub name : String
  pub public_key : List ℕ
  pub endpoint : Option (List ℕ)
  pub allowed_ips : List (List ℕ)
  pub latest_handshake : ℕ
  pub received_bytes : ℕ
  pub sent_bytes : ℕ
  pub persistent_keepalive : ℕ

-- The names by public key; a later peer replaces an earlier one.
abbrev pub PeerNames : Type 0
PeerNames = List (String × String)

abbrev found_name : PeerNames → List ℕ → Option String
found_name [] key = none
found_name (entry ∷ rest) key =
    first_of (found_name rest key) (if codes entry.0 == key then some entry.1 else none)
  where
    first_of : Option String → Option String → Option String
    first_of none other = other
    first_of (some s) other = some s

unfoldable pub name_of : PeerNames → List ℕ → String
name_of names key = elim (found_name names key) [ none ↦ "unknown" | some s ↦ s ]

-- One line of the dump, or none if it has too few columns.
unfoldable pub peer_row : PeerNames → List (List ℕ) → Result (Option PeerRow)
peer_row names (key ∷ _ ∷ endpoint ∷ allowed ∷ handshake ∷ received ∷ sent ∷ keepalive ∷ rest) = do
  latest_handshake ← wireguard_number handshake "handshake time" false
  received_bytes ← wireguard_number received "received byte count" false
  sent_bytes ← wireguard_number sent "sent byte count" false
  persistent_keepalive ← wireguard_number keepalive "persistent keepalive" true
  ok (
      some (record {
        name = name_of names key;
        public_key = key;
        endpoint =
            if is_empty endpoint || (endpoint == codes "(none)") then none else some endpoint;
        allowed_ips = if is_empty allowed then [] else split 44 [] allowed;
        latest_handshake = latest_handshake;
        received_bytes = received_bytes;
        sent_bytes = sent_bytes;
        persistent_keepalive = persistent_keepalive;
      }))
peer_row names columns = ok none

abbrev add_row : Option PeerRow → List PeerRow → List PeerRow
add_row none rows = rows
add_row (some row) rows = row ∷ rows

unfoldable pub peer_rows : PeerNames → List (List ℕ) → Result (List PeerRow)
peer_rows names [] = ok []
peer_rows names (line ∷ lines) = do
  row ← peer_row names (split 9 [] line)
  rows ← peer_rows names lines
  ok (add_row row rows)

abbrev rest_of : List (List ℕ) → List (List ℕ)
rest_of [] = []
rest_of (line ∷ lines) = lines

-- The rows of the output of `wg show wg0 dump`, whose first line is the interface.
unfoldable pub read_dump : PeerNames → String → Result (List PeerRow)
read_dump names output = peer_rows names (rest_of (split_lines false [] (codes output)))
