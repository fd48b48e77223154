-- ===== src/Net.antt =====
-- The addresses, interfaces and networks of Python's ipaddress, as config.py and its clients use
-- them. An IPv4-mapped IPv6 address takes its properties from the IPv4 address (Python 3.13 on).
use native.Mathlib.Decide.{ℕ_discrete}
use shuttle_gate.Base.{
  String, ◌<>◌, show, ℕ, ◌+◌, ◌-◌, ◌/◌, ◌%◌, ◌^◌, Bool, ◌&&◌, Option, none, some, Eq, ◌==◌, nat_eq,
  string_eq, option_eq, if◌then◌else◌,
}

pub record Address : Type 0 where
  pub version : ℕ
  pub value : ℕ
  pub scope : Option String

pub record Network : Type 0 where
  pub network_address : Address
  pub prefixlen : ℕ

-- An address with the prefix length of its network.
pub record Interface : Type 0 where
  pub version : ℕ
  pub value : ℕ
  pub scope : Option String
  pub prefixlen : ℕ

text_dec : Discrete String
unfolding string_eq
text_dec = string_eq.dec

address_dec : Discrete Address
address_dec = hlevel (ℕ_discrete, text_dec)

network_dec : Discrete Network
network_dec = hlevel (ℕ_discrete, text_dec)

instance unfoldable pub address_eq : Eq Address
unfolding address_dec text_dec ℕ_discrete
address_eq = record { dec = address_dec }

instance unfoldable pub network_eq : Eq Network
unfolding network_dec text_dec ℕ_discrete
network_eq = record { dec = network_dec }

abbrev pub width : ℕ → ℕ
width version = if version == 4 then 32 else 128

-- The host part of a network holds this many addresses.
abbrev pub hosts : ℕ → ℕ → ℕ
hosts version prefixlen = 2 ^ (width version - prefixlen)

abbrev is_multicast_v4 : ℕ → Bool
is_multicast_v4 value = value / 2 ^ 28 == 14

abbrev is_link_local_v4 : ℕ → Bool
is_link_local_v4 value = value / 2 ^ 16 == 0xa9fe

-- The IPv4 address that an IPv6 address maps.
abbrev mapped : ℕ → Option ℕ
mapped value = if value / 2 ^ 32 == 0xffff then some (value % 2 ^ 32) else none

unfoldable pub is_multicast : Address → Bool
unfolding nat_eq
is_multicast a =
    if a.version == 4
    then is_multicast_v4 a.value
    else elim (mapped a.value) [ none ↦ a.value / 2 ^ 120 == 0xff | some v ↦ is_multicast_v4 v ]

unfoldable pub is_unspecified : Address → Bool
unfolding nat_eq
is_unspecified a =
    if a.version == 4
    then a.value == 0
    else elim (mapped a.value) [ none ↦ a.value == 0 | some v ↦ v == 0 ]

unfoldable pub is_link_local : Address → Bool
unfolding nat_eq
is_link_local a =
    if a.version == 4
    then is_link_local_v4 a.value
    else elim (mapped a.value) [ none ↦ a.value / 2 ^ 118 == 0x3fa | some v ↦ is_link_local_v4 v ]

-- interface.ip, which has no scope
abbrev pub ip : Interface → Address
ip i = record { version = i.version; value = i.value; scope = none }

-- interface.network: its address keeps the scope if it has no host bits to clear
unfoldable pub network : Interface → Network
unfolding nat_eq
network i =
    let size = hosts i.version i.prefixlen in
    record {
      network_address = record {
        version = i.version;
        value = i.value - i.value % size;
        scope = if i.value % size == 0 then i.scope else none;
      };
      prefixlen = i.prefixlen;
    }

unfoldable pub broadcast_address : Network → Address
unfolding nat_eq
broadcast_address n = record n.network_address {
  value = n.network_address.value + hosts n.network_address.version n.prefixlen - 1;
  scope = none;
}

-- `address in network`
unfoldable pub in_network : Address → Network → Bool
unfolding nat_eq
in_network a n =
    a.version == n.network_address.version
    && a.value - a.value % hosts n.network_address.version n.prefixlen == n.network_address.value

-- How ipaddress reads and writes addresses.
pub record AddressText : Type 0 where
  -- ip_address(text); `none` is a ValueError
  pub parse : String → Option Address
  -- str(address)
  pub show_address : Address → String

-- str(interface) and str(network)
abbrev pub show_interface : AddressText → Interface → String
show_interface text i =
    text.show_address (record { version = i.version; value = i.value; scope = i.scope })
    <> ("/" <> show i.prefixlen)

abbrev pub show_network : AddressText → Network → String
show_network text n = text.show_address n.network_address <> ("/" <> show n.prefixlen)

-- The host part of an endpoint: an IPv6 address in brackets, a name as it is.
unfoldable pub bracketed : AddressText → String → String
bracketed text host = by_address (text.parse host)
  where
    by_address : Option Address → String
    by_address none = host
    by_address (some a) =
        if a.version == 6 then "[" <> (text.show_address a <> "]") else text.show_address a
