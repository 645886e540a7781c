-- ===== src/ServerAddr.antt =====
-- serveraddr.go: the protocols and the address of a server. A `Protocol` is a string, so that any
-- text can stand there.
use dnscore.Prelude.{String}

abbrev pub Protocol : Type 0
Protocol = String

abbrev pub protocol_udp : Protocol
protocol_udp = "udp"

abbrev pub protocol_tcp : Protocol
protocol_tcp = "tcp"

abbrev pub protocol_dot : Protocol
protocol_dot = "dot"

abbrev pub protocol_doh : Protocol
protocol_doh = "doh"

pub record ServerAddr : Type 0 where
  pub protocol : Protocol
  pub address : String

abbrev pub new_server_addr : Protocol → String → ServerAddr
new_server_addr protocol address = record { protocol = protocol; address = address }
