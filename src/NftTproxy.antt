-- ===== src/NftTproxy.antt =====
-- nft_tproxy.py: the nftables table of the transparent proxy. Ports and widths are natural numbers;
-- the family is the IP version that `socket.AF_INET` or `socket.AF_INET6` stands for.
pub mod Precedence
pub mod Order
pub mod Rearranged
use shuttle_gate.Base.{
  String, ◌<>◌, ℕ, ◌+◌, ◌-◌, ◌%◌, Bool, true, false, not, ◌&&◌, ◌||◌, Option, none, some, List, [],
  ◌∷◌, ◌++◌, all, is_digit, codes, contains, is_empty, leb, ltb, join, show, ◌==◌, ◌!=◌, nat_eq,
  string_eq, if◌then◌else◌, concat_map,
}
use shuttle_gate.Errors.{Error, value_error, Result, ok, err, ◌>>=◌, ◌>>◌, raise_if}
use shuttle_gate.Net.{Address, Network, AddressText, show_network, network}
use shuttle_gate.Render.{lines_text}

pub record Subnet : Type 0 where
  pub family : ℕ
  pub width : ℕ
  pub exclude : Bool
  pub network_text : String
  pub first_port : ℕ
  pub last_port : ℕ

unfoldable pub nft_table_name : ℕ → Result String
nft_table_name port = do
  raise_if (not (leb 1 port && leb port 65535))
      (value_error ("invalid transparent proxy port: " <> show port))
  ok ("shuttle_gate_tproxy_" <> show port)

-- The token of nftables, which is also that of the address, and the largest width.
unfoldable pub family_tokens : ℕ → Result (String × ℕ)
family_tokens family =
    if family == 4
    then ok ("ip", 32)
    else if family == 6
    then ok ("ip6", 128)
    else err (value_error "unsupported address family")

-- `first_port or -65535`, and 65535 more.
abbrev pub shifted_first : Subnet → ℕ
shifted_first s = if s.first_port == 0 then 0 else s.first_port + 65535

abbrev pub truth : Bool → ℕ
truth true = 1
truth false = 0

-- Whether `_subnet_weight` of the first is greater than that of the second.
unfoldable pub is_heavier : Subnet → Subnet → Bool
is_heavier a b =
    ltb (shifted_first b + a.last_port) (shifted_first a + b.last_port)
    || ((shifted_first b + a.last_port == shifted_first a + b.last_port)
        && (ltb b.width a.width
            || ((b.width == a.width) && ltb (truth b.exclude) (truth a.exclude))))

-- sorted(subnets, key=_subnet_weight, reverse=True), which keeps the order of equal weights
unfoldable pub insert_subnet : Subnet → List Subnet → List Subnet
insert_subnet s [] = s ∷ []
insert_subnet s (t ∷ rest) =
    let later = insert_subnet s rest in if is_heavier t s then t ∷ later else s ∷ t ∷ rest

unfoldable pub sorted_subnets : List Subnet → List Subnet
sorted_subnets [] = []
sorted_subnets (s ∷ rest) = insert_subnet s (sorted_subnets rest)

-- `_match`
unfoldable pub match_text : String → String → String → ℕ → ℕ → String
match_text protocol address_token network first last = join " " (
    (address_token <> (" daddr " <> network))
    ∷ (if first == 0
        then "meta l4proto " <> protocol
        else protocol
          <> (" dport "
              <> (if first == last then show first else show first <> ("-" <> show last))))
    ∷ [])

abbrev is_mark_digit : ℕ → Bool
is_mark_digit c = contains (codes "0123456789abcdefABCDEF") c

abbrev is_mark : List ℕ → Bool
is_mark (zero_digit ∷ x ∷ digit ∷ digits) =
    (zero_digit == b'0') && (x == b'x') && all is_mark_digit (digit ∷ digits)
is_mark text = false

module _ (text : AddressText) (port family : ℕ) (udp : Bool) (mark : String) where
  abbrev rule_of : String → Bool → String
  rule_of match exclude =
      if exclude
      then "    " <> (match <> " return")
      else "    "
        <> (match <> (" tproxy to :" <> (show port <> (" meta mark set " <> (mark <> " accept")))))

  abbrev protocols : List String
  protocols = if udp then "tcp" ∷ "udp" ∷ [] else "tcp" ∷ []

  abbrev masked : Address → ℕ → Network
  masked a width =
      network (record { version = a.version; value = a.value; scope = a.scope; prefixlen = width })

  -- The rules of one subnet: `ip_network(f"{network}/{width}", strict=False)` and the tests.
  unfoldable pub subnet_rules : String → ℕ → Subnet → Result (List String)
  subnet_rules token max_width s = do
    raise_if (s.family != family)
        (value_error "sshuttle passed a subnet for the wrong address family")
    raise_if (not (leb s.width max_width)) (value_error ("invalid subnet width: " <> show s.width))
    parsed ← parse_address (text.parse s.network_text)
    raise_if (parsed.version != family)
        (value_error ("subnet family mismatch: " <> (s.network_text <> ("/" <> show s.width))))
    raise_if (not (leb s.first_port s.last_port && leb s.last_port 65535))
        (value_error ("invalid port range: " <> (show s.first_port <> ("-" <> show s.last_port))))
    ok (
        concat_map
          (λ protocol.
            rule_of
              (match_text protocol token (show_network text (masked parsed s.width)) s.first_port
                s.last_port)
              s.exclude
            ∷ [])
          protocols)
    where
      parse_address : Option Address → Result Address
      parse_address none = err (value_error "invalid network")
      parse_address (some a) = ok a

  unfoldable pub all_rules : String → ℕ → List Subnet → Result (List String)
  all_rules token max_width [] = ok []
  all_rules token max_width (s ∷ rest) = do
    rules ← subnet_rules token max_width s
    more ← all_rules token max_width rest
    ok (rules ++ more)

  unfoldable pub render_tproxy_table : List Subnet → Result String
  render_tproxy_table subnets = do
    (token, max_width) ← family_tokens family
    raise_if (not (is_mark (codes mark))) (value_error ("invalid packet mark: " <> mark))
    table ← nft_table_name port
    rules ← all_rules token max_width (sorted_subnets subnets)
    ok (
        lines_text (
          (("table " <> (token <> (" " <> (table <> " {"))))
            ∷ "  chain prerouting {"
            ∷ "    type filter hook prerouting priority mangle; policy accept;"
            ∷ "    iifname != \"wg0\" return"
            ∷ "    fib daddr type local return"
            ∷ ("    socket transparent 1 meta mark set " <> (mark <> " accept"))
            ∷ rules)
          ++ "  }" ∷ "}" ∷ []))
