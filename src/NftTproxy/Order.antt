-- ===== src/NftTproxy/Order.antt =====
-- `render_tproxy_table` of nft_tproxy.py: the order of the rules, by what the subnets match.
use shuttle_gate.Base.{
  String, ◌<>◌, ℕ, ◌+◌, ◌-◌, ◌≡◌, ◌≤◌, ◌<◌, ◌⊎◌, Bool, true, false, List, [], ◌∷◌, ◌++◌, All,
  nat_eq, ◌==◌, if◌then◌else◌,
}
use shuttle_gate.Errors.{ok}
use shuttle_gate.Net.{AddressText}
use shuttle_gate.Render.{lines_text}
use shuttle_gate.NftTproxy.{Subnet, all_rules, nft_table_name, family_tokens}
use mathlib.Core.List.{Perm}

-- A subnet for ports, or for all of them.
pub record HasPorts (s : Subnet) : Type 0 where
  pub ascending : s.first_port ≤ s.last_port
  pub small : s.last_port ≤ 65535

-- A first port of 0 stands for a rule that matches every port.
abbrev pub is_for_all_ports : Subnet → Bool
is_for_all_ports s = s.first_port == 0

-- How many ports follow the first one; for all ports it is more than for any range.
abbrev pub port_span : Subnet → ℕ
port_span s = if is_for_all_ports s then s.last_port + 65535 else s.last_port - s.first_port

-- The first of two subnets goes before the second: for fewer ports; for as many, with the longer
-- prefix; and with the same, unless it is the second alone that is excluded.
abbrev pub Precedes : Subnet → Subnet → Type 0
Precedes s t =
    (port_span s < port_span t)
    ⊎ ((port_span s ≡ port_span t)
        × ((t.width < s.width)
            ⊎ ((t.width ≡ s.width) × ((s.exclude ≡ true) ⊎ (t.exclude ≡ false)))))

abbrev pub AreInOrder : List Subnet → Type 0
AreInOrder [] = Unit
AreInOrder (s ∷ rest) = All (Precedes s) rest × AreInOrder rest

module _ (text : AddressText) (port family : ℕ) (udp : Bool) (mark : String) where
  -- A table with the rules of these subnets, in some order in which the first rule that matches a
  -- packet is the most specific one.
  pub record IsOrderedTable (subnets : List Subnet) (out : String) : Type 0 where
    pub listed : List Subnet
    pub same : Perm listed subnets
    pub ports : All HasPorts listed
    pub ordered : AreInOrder listed
    pub token : String
    pub max_width : ℕ
    pub table : String
    pub rules : List String
    pub family_found : family_tokens family ≡ ok (token, max_width)
    pub named : nft_table_name port ≡ ok table
    pub rendered : all_rules text port family udp mark token max_width listed ≡ ok rules
    pub written :
        out
        ≡ lines_text (
            ("table " <> (token <> (" " <> (table <> " {"))))
            ∷ "  chain prerouting {"
            ∷ "    type filter hook prerouting priority mangle; policy accept;"
            ∷ "    iifname != \"wg0\" return"
            ∷ "    fib daddr type local return"
            ∷ ("    socket transparent 1 meta mark set " <> (mark <> " accept"))
            ∷ (rules ++ "  }" ∷ "}" ∷ []))
