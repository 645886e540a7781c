-- ===== src/ResolverConfig.antt =====
-- resolverconfig.go: the configured servers with their query options and timeouts, and the
-- defaults. The mutex makes each method atomic: a method is a function of the configuration.
pub mod Servers
pub mod Defaults
pub mod Mutex
mod Tests
use Prim.Native.Nat.{bit_or}
use dnscore.Prelude.{
  ℕ, ◌+◌, Bool, String, Option, none, some, List, [], ◌∷◌, ◌++◌, codes, any, ◌==◌, str_eq, ◌<>◌,
  if◌then◌else◌,
}
use dnscore.Prelude.Int.{ℤ, pos}
use dnscore.Dns.{Library}
use dnscore.ServerAddr.{ServerAddr, new_server_addr}
use dnscore.ServerAddr.{protocol_udp, protocol_tcp, protocol_dot, protocol_doh}
use dnscore.Query.{QueryOption, query_option_edns0, edns0_flag_do, edns0_flag_block_length_padding}
use dnscore.Query.{edns0_suggested_max_response_size_udp}
use dnscore.Query.{edns0_suggested_max_response_size_otherwise}

-- The timeout is a signed number of nanoseconds.
pub record ResolverConfigServer : Type 0 where
  pub address : ServerAddr
  pub query_options : List QueryOption
  pub timeout : ℤ

pub record ResolverConfig : Type 0 where
  pub attempts : ℤ
  pub list : List ResolverConfigServer

abbrev pub default_attempts : ℤ
default_attempts = pos 2

abbrev pub new_config : ResolverConfig
new_config = record { attempts = default_attempts; list = [] }

abbrev pub set_attempts : ResolverConfig → ℤ → ResolverConfig
set_attempts c attempts = record c { attempts = attempts }

abbrev pub AddServerOption : Type 0
AddServerOption = ResolverConfigServer → ResolverConfigServer

unfoldable pub server_option_query_options : List QueryOption → AddServerOption
server_option_query_options query_options s = record s { query_options = query_options }

-- `5 * time.Second`
abbrev pub default_query_timeout : ℤ
default_query_timeout = pos 5_000_000_000

unfoldable pub server_option_query_timeout : ℤ → AddServerOption
server_option_query_timeout timeout s = record s { timeout = timeout }

apply_server_options : List AddServerOption → ResolverConfigServer → ResolverConfigServer
apply_server_options [] s = s
apply_server_options (option ∷ options) s = apply_server_options options (option s)

-- `net.JoinHostPort`: a host with a colon is put in brackets.
abbrev pub join_host_port : String → String → String
join_host_port host port =
    if any (λ c. c == b':') (codes host) then "[" <> host <> "]:" <> port else host <> ":" <> port

module _ (L : Library) where
  -- The switch on the protocol: no case but these changes the options.
  pub default_query_options : ServerAddr → List QueryOption
  default_query_options address =
      let both = bit_or edns0_flag_do edns0_flag_block_length_padding in
      if str_eq address.protocol protocol_doh
      then query_option_edns0 L edns0_suggested_max_response_size_otherwise both ∷ []
      else if str_eq address.protocol protocol_dot
      then query_option_edns0 L edns0_suggested_max_response_size_otherwise both ∷ []
      else if str_eq address.protocol protocol_tcp
      then query_option_edns0 L edns0_suggested_max_response_size_otherwise 0 ∷ []
      else if str_eq address.protocol protocol_udp
      then query_option_edns0 L edns0_suggested_max_response_size_udp 0 ∷ []
      else []

  pub new_resolver_config_server : ServerAddr → List AddServerOption → ResolverConfigServer
  unfolding default_query_options apply_server_options
  new_resolver_config_server address options = apply_server_options options (record {
    address = address;
    query_options = default_query_options address;
    timeout = default_query_timeout;
  })

  unfoldable pub add_server : ResolverConfig → ServerAddr → List AddServerOption → ResolverConfig
  add_server c address options = record c {
    list = c.list ++ new_resolver_config_server address options ∷ [];
  }

  -- One round of the loop over the default addresses.
  default_server : String → ResolverConfigServer
  unfolding new_resolver_config_server
  default_server addr =
      new_resolver_config_server (new_server_addr protocol_udp (join_host_port addr "53")) (
        server_option_query_options
          (query_option_edns0 L edns0_suggested_max_response_size_udp 0 ∷ [])
        ∷ [])

  or_default_servers : List ResolverConfigServer → List ResolverConfigServer
  unfolding default_server
  or_default_servers [] = default_server "8.8.8.8" ∷ default_server "8.8.4.4" ∷ []
  or_default_servers (s ∷ list) = s ∷ list

  unfoldable pub servers : ResolverConfig → List ResolverConfigServer
  unfolding or_default_servers
  servers c = or_default_servers c.list
