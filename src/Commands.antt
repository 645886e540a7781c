-- ===== src/Commands.antt =====
-- internal/cmd: the commands `transport` and `lookup`. Their flags come parsed, as package flag does,
-- and a text of a message is what its method `String` gives, the argument `show`. What goes to the
-- standard output by `fmt.Printf` is an event.
pub mod Flags
pub mod Reports
mod Tests
use dnscore.Prelude.{
  ℕ, ◌+◌, Bytes, Bool, true, false, not, ◌||◌, String, none, some, List, [], ◌∷◌, ◌++◌, codes,
  str_eq, if◌then◌else◌,
}
use dnscore.Go.{Result, ok, panic}
use dnscore.Dns.{Msg, Library, type_a, type_aaaa}
use dnscore.ServerAddr.{
  Protocol, ServerAddr, protocol_udp, protocol_dot, protocol_doh, new_server_addr,
}
use dnscore.Runtime.{Env, Context, printed}
use dnscore.Runtime.Io.{Io, lift, check, emit, ◌>>=◌, ◌>>◌}
use dnscore.Runtime.Runtimex.{try1}
use dnscore.Query.{
  QueryOption, query_option_edns0, new_query_with_server_addr, edns0_flag_do,
  edns0_flag_block_length_padding, edns0_suggested_max_response_size_udp,
  edns0_suggested_max_response_size_otherwise,
}
use dnscore.Response.{validate_response, rcode_to_error}
use dnscore.Transport.{Transport, default_transport}
use dnscore.Dispatch.{query}
use dnscore.Resolver.{Resolver}
use dnscore.Host.{Order, lookup_host}

-- `context.Background()`
abbrev pub background : Context
background = record { key = 0; deadline = none }

-- `&dnscore.Transport{}` with the JSON logger.
abbrev pub logging_transport : Transport
logging_transport = record default_transport { logger = true }

-- The flags of the command `transport`, with their defaults.
pub record TransportFlags : Type 0 where
  pub server : String
  pub domain : Bytes
  pub qtype : String
  pub protocol : String

abbrev pub default_flags : TransportFlags
default_flags = record {
  server = "8.8.8.8:53";
  domain = codes "www.example.com";
  qtype = "A";
  protocol = "udp";
}

-- The switch on the type: any other panics.
pub dns_type : String → Result ℕ
dns_type qtype =
    if str_eq qtype "A"
    then ok type_a
    else if str_eq qtype "AAAA"
    then ok type_aaaa
    else if str_eq qtype "CNAME"
    then ok 5
    else if str_eq qtype "HTTPS"
    then ok 65
    else panic

-- The two flags are different bits.
pub edns0_flags : Protocol → ℕ
edns0_flags protocol =
    if str_eq protocol protocol_dot || str_eq protocol protocol_doh
    then edns0_flag_do + edns0_flag_block_length_padding
    else 0

pub max_length : Protocol → ℕ
max_length protocol =
    if not (str_eq protocol protocol_udp)
    then edns0_suggested_max_response_size_otherwise
    else edns0_suggested_max_response_size_udp

-- `"\n"`
abbrev newline : Bytes
newline = 10 ∷ []

abbrev pub query_text : Bytes → Bytes
query_text text = codes ";; Query:" ++ newline ++ text ++ newline

abbrev pub response_text : Bytes → Bytes
response_text text = newline ++ codes ";; Response:" ++ newline ++ text ++ newline ++ newline

module _ (L : Library) (E : Env) (show : Msg → Bytes) where
  -- `main` of the command `transport`.
  pub transport_main : TransportFlags → Io (Unit {0})
  unfolding dns_type edns0_flags max_length
  transport_main flags = do
    qtype ← lift (dns_type flags.qtype)
    let server = new_server_addr flags.protocol flags.server
    let opt_edns0 = query_option_edns0 L (max_length flags.protocol) (edns0_flags flags.protocol)
    q ← try1 (new_query_with_server_addr L E server flags.domain qtype (opt_edns0 ∷ []))
    emit (printed (query_text (show q)))
    resp ← try1 (query L E logging_transport background server q)
    emit (printed (response_text (show resp)))
    try1 (check (validate_response q resp))
    try1 (check (rcode_to_error resp))

-- `%s` of a slice of strings: between brackets, with a blank between two.
abbrev pub words : List Bytes → Bytes
words [] = []
words (w ∷ []) = w
words (w ∷ v ∷ ws) = w ++ b' ' ∷ words (v ∷ ws)

abbrev pub addrs_text : List Bytes → Bytes
addrs_text addrs = codes "[" ++ words addrs ++ codes "]" ++ newline

module _ (L : Library) (E : Env) where
  -- The resolver with the logging transport and no configuration.
  pub lookup_resolver : Resolver
  lookup_resolver = record { config = none; transport = some (query L E logging_transport) }

  -- `main` of the command `lookup`.
  pub lookup_main : Bytes → Order → Io (Unit {0})
  unfolding lookup_resolver
  lookup_main domain order = do
    addrs ← try1 (lookup_host L E lookup_resolver background domain order)
    emit (printed (addrs_text addrs))
