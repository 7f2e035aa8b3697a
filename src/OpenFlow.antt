-- ===== src/OpenFlow.antt =====
-- The OpenFlow messages that the controller modules build (tumba_sdn/controller/*.py, the calls of
-- OFPMatch, OFPActionOutput, OFPActionSetQueue and OFPFlowMod), and the switch that receives them.
-- Ryu and the switch are not in the repository: `Switch` takes the switch's choice of a flow entry
-- as a parameter, with what the OpenFlow 1.3 table lookup documents of it.
pub mod Lookup
use ai_driven_software_defin.Base.{
  ℕ, ◌≤◌, ◌≡◌, Bool, true, false, ◌&&◌, Option, none, some, List, In, String, ◌==◌, string_eq,
  nat_eq,
}

-- `ipv4_src=addr`, or `ipv4_src=(network, mask)`.
pub data IpMatch : Type 0 where
  exact : String → IpMatch
  masked : String → String → IpMatch

pub data Port : Type 0 where
  normal flood controller : Port
  port : ℕ → Port

pub data Action : Type 0 where
  output : Port → Action
  set_queue : ℕ → Action
  set_ipv4_src set_ipv4_dst set_eth_dst : String → Action

-- The keyword arguments of OFPMatch; an absent one is a wildcard.
pub record Match : Type 0 where
  pub in_port : Option ℕ
  pub eth_type : Option ℕ
  pub eth_src : Option String
  pub eth_dst : Option String
  pub ipv4_src : Option IpMatch
  pub ipv4_dst : Option IpMatch
  pub ip_proto : Option ℕ
  pub tcp_dst : Option ℕ
  pub udp_dst : Option ℕ
  pub tcp_src : Option ℕ
  pub udp_src : Option ℕ

pub record FlowMod : Type 0 where
  pub priority : ℕ
  pub match : Match
  pub actions : List Action
  pub cookie : ℕ
  pub idle_timeout : ℕ
  pub hard_timeout : ℕ
  pub buffer_id : Option ℕ

abbrev pub any_match : Match
any_match = record {
  in_port = none;
  eth_type = none;
  eth_src = none;
  eth_dst = none;
  ipv4_src = none;
  ipv4_dst = none;
  ip_proto = none;
  tcp_dst = none;
  udp_dst = none;
  tcp_src = none;
  udp_src = none;
}

-- OFPFlowMod with the arguments that the source leaves out at their defaults.
abbrev pub flow_mod : ℕ → Match → List Action → ℕ → FlowMod
flow_mod priority match actions cookie = record {
  priority = priority;
  match = match;
  actions = actions;
  cookie = cookie;
  idle_timeout = 0;
  hard_timeout = 0;
  buffer_id = none;
}

abbrev pub eth_type_ip : ℕ
eth_type_ip = 0x0800

abbrev pub eth_type_arp : ℕ
eth_type_arp = 0x0806

-- The header fields of a packet; a field of a protocol that it does not carry is absent.
pub record Packet : Type 0 where
  pub in_port : ℕ
  pub eth_type : ℕ
  pub eth_src : String
  pub eth_dst : String
  pub ipv4_src : String
  pub ipv4_dst : String
  pub ip_proto : ℕ
  pub tcp_dst : Option ℕ
  pub udp_dst : Option ℕ
  pub tcp_src : Option ℕ
  pub udp_src : Option ℕ

-- An absent field of the match admits every value.
abbrev pub admits_number : Option ℕ → ℕ → Bool
admits_number none v = true
admits_number (some n) v = n == v

abbrev pub admits_text : Option String → String → Bool
admits_text none v = true
admits_text (some n) v = n == v

abbrev pub admits_port : Option ℕ → Option ℕ → Bool
admits_port none v = true
admits_port (some n) none = false
admits_port (some n) (some v) = n == v

-- `mask_with addr mask` is the network of an address, as dotted text.
module _ (mask_with : String → String → String) where
  abbrev pub admits_ip : Option IpMatch → String → Bool
  admits_ip none addr = true
  admits_ip (some (exact a)) addr = a == addr
  admits_ip (some (masked nw mask)) addr = nw == mask_with addr mask

  -- Each field of the match admits the packet's field.
  unfoldable pub matches : Match → Packet → Bool
  matches m p =
      admits_number m.in_port p.in_port
      && (admits_number m.eth_type p.eth_type
          && (admits_text m.eth_src p.eth_src
              && (admits_text m.eth_dst p.eth_dst
                  && (admits_ip m.ipv4_src p.ipv4_src
                      && (admits_ip m.ipv4_dst p.ipv4_dst
                          && (admits_number m.ip_proto p.ip_proto
                              && (admits_port m.tcp_dst p.tcp_dst
                                  && (admits_port m.udp_dst p.udp_dst
                                      && (admits_port m.tcp_src p.tcp_src
                                          && admits_port m.udp_src p.udp_src)))))))))

-- The switch: a packet is handled by a matching entry of the highest priority, and where several
-- have it the choice is the switch's. No entry is chosen only if none matches.
pub record Switch : Type 0 where
  pub mask_with : String → String → String
  pub select : List FlowMod → Packet → Option FlowMod
  pub select_member :
      (table : List FlowMod) (p : Packet) (r : FlowMod) → select table p ≡ some r → In r table
  pub select_matches :
      (table : List FlowMod) (p : Packet) (r : FlowMod)
      → select table p ≡ some r
      → matches mask_with r.match p ≡ true
  pub select_highest :
      (table : List FlowMod) (p : Packet) (r s : FlowMod)
      → select table p ≡ some r
      → In s table
      → matches mask_with s.match p ≡ true
      → s.priority ≤ r.priority
  pub select_none :
      (table : List FlowMod) (p : Packet) (s : FlowMod)
      → select table p ≡ none
      → In s table
      → matches mask_with s.match p ≡ false
