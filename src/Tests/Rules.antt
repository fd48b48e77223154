-- ===== src/Tests/Rules.antt =====
-- The rules of a network and of a part of it that is excluded.
use shuttle_gate.Base.{String, true, false, List, [], ◌∷◌, some, none}
use shuttle_gate.Errors.{Result, ok, err}
use shuttle_gate.NftTproxy.{Subnet, render_tproxy_table}
use shuttle_gate.Net.{AddressText}

-- Every text is that of 10.0.0.0.
abbrev text : AddressText
text = record {
  parse = λ s. some (record { version = 4; value = 167772160; scope = none });
  show_address = λ a. "10.0.0.0";
}

-- A network, and a part of it that is excluded.
abbrev subnets : List Subnet
subnets =
    record {
      family = 4;
      width = 8;
      exclude = false;
      network_text = "10.0.0.0";
      first_port = 0;
      last_port = 0;
    }
    ∷ record {
      family = 4;
      width = 24;
      exclude = true;
      network_text = "10.0.0.0";
      first_port = 0;
      last_port = 0;
    }
    ∷ []

abbrev text_of : Result String → String
text_of (ok t) = t
text_of (err e) = ""

abbrev table : String
table = text_of (render_tproxy_table text 12300 4 true "0x01" subnets)
