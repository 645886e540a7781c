-- ===== src/ResolverConfig/Servers.antt =====
-- `AddServer` and `servers`: which servers a configuration has, and with which options.
use dnscore.Prelude.{
  ◌≡◌, refl, sym, ap, ◌∙◌, ◌<◌, length, List, [], ◌∷◌, ◌++◌, map, append_assoc, append-nil, arith,
}
use dnscore.Prelude.Int.{ℤ}
use dnscore.Dns.{Library}
use dnscore.ServerAddr.{ServerAddr, new_server_addr, protocol_udp}
use dnscore.Query.{QueryOption}
use dnscore.ResolverConfig.{
  ResolverConfigServer, ResolverConfig, AddServerOption, new_config, add_server, servers,
  new_resolver_config_server, or_default_servers, server_option_query_options,
  server_option_query_timeout, apply_server_options, default_query_options, default_query_timeout,
}

-- The arguments of one call of `AddServer`.
pub record Addition : Type 0 where
  pub address : ServerAddr
  pub options : List AddServerOption

abbrev pub add_servers : Library → ResolverConfig → List Addition → ResolverConfig
add_servers L c [] = c
add_servers L c (a ∷ adds) = add_servers L (add_server L c a.address a.options) adds

abbrev pub configured : Library → Addition → ResolverConfigServer
configured L a = new_resolver_config_server L a.address a.options

list-add_servers :
    (L : Library) (c : ResolverConfig) (adds : List Addition)
    → (add_servers L c adds).list ≡ c.list ++ map (configured L) adds
unfolding add_server
list-add_servers L c [] = sym (append-nil c.list)
list-add_servers L c (a ∷ adds) =
    list-add_servers L (add_server L c a.address a.options) adds
    ∙ append_assoc c.list (configured L a ∷ []) (map (configured L) adds)

-- After any calls of `AddServer`, at least one, on a new configuration, the servers are those that
-- were added, in the order of the calls.
pub servers-add_servers :
    (L : Library) (a : Addition) (adds : List Addition)
    → servers L (add_servers L new_config (a ∷ adds)) ≡ map (configured L) (a ∷ adds)
unfolding servers
servers-add_servers L a adds = ap (or_default_servers L) (list-add_servers L new_config (a ∷ adds))

-- There is always a server.
pub length-servers : (L : Library) (c : ResolverConfig) → 0 < length (servers L c)
unfolding servers
length-servers L c = elim c.list as (λ list. 0 < length (or_default_servers L list)) [
  | [] ↦ unfold or_default_servers in omega arith
  | s ∷ list ↦ unfold or_default_servers in omega arith
]

-- An empty configuration has two servers, 8.8.8.8:53 and 8.8.4.4:53 over UDP, each just as
-- `AddServer` would add it without options.
pub servers_default :
    (L : Library) (c : ResolverConfig)
    → c.list ≡ []
    → servers L c
      ≡ map
          (λ text. new_resolver_config_server L (new_server_addr protocol_udp text) [])
          ("8.8.8.8:53" ∷ "8.8.4.4:53" ∷ [])
unfolding servers new_resolver_config_server server_option_query_options
servers_default L c e = rw e refl

-- The options that `AddServer` knows.
pub data ServerOption : Type 0 where
  query_options : List QueryOption → ServerOption
  query_timeout : ℤ → ServerOption

abbrev pub server_option : ServerOption → AddServerOption
server_option (query_options qs) = server_option_query_options qs
server_option (query_timeout t) = server_option_query_timeout t

-- The last value that the options give, or the default.
abbrev pub last_query_options : List QueryOption → List ServerOption → List QueryOption
last_query_options d [] = d
last_query_options d (query_options qs ∷ os) = last_query_options qs os
last_query_options d (query_timeout _ ∷ os) = last_query_options d os

abbrev pub last_timeout : ℤ → List ServerOption → ℤ
last_timeout d [] = d
last_timeout d (query_options _ ∷ os) = last_timeout d os
last_timeout d (query_timeout t ∷ os) = last_timeout t os

apply_server_options_lem :
    (s : ResolverConfigServer) (os : List ServerOption)
    → apply_server_options (map server_option os) s ≡ record {
      address = s.address;
      query_options = last_query_options s.query_options os;
      timeout = last_timeout s.timeout os;
    }
unfolding apply_server_options server_option_query_options server_option_query_timeout
apply_server_options_lem s [] = refl
apply_server_options_lem s (query_options qs ∷ os) = apply_server_options_lem _ os
apply_server_options_lem s (query_timeout t ∷ os) = apply_server_options_lem _ os

-- Each of the two options replaces the default of its field, the last one wins, and no option
-- changes the address.
pub new_resolver_config_server-options :
    (L : Library) (address : ServerAddr) (os : List ServerOption)
    → new_resolver_config_server L address (map server_option os) ≡ record {
      address = address;
      query_options = last_query_options (default_query_options L address) os;
      timeout = last_timeout default_query_timeout os;
    }
unfolding new_resolver_config_server
new_resolver_config_server-options L address os = apply_server_options_lem _ os

-- The arguments of one call of `AddServer` with the options that it knows.
pub record Choice : Type 0 where
  pub address : ServerAddr
  pub options : List ServerOption

abbrev pub to_addition : Choice → Addition
to_addition c = record { address = c.address; options = map server_option c.options }

-- The address, with the last value given for each option or its default for that address.
abbrev pub chosen : Library → Choice → ResolverConfigServer
chosen L c = record {
  address = c.address;
  query_options = last_query_options (default_query_options L c.address) c.options;
  timeout = last_timeout default_query_timeout c.options;
}

map-configured :
    (L : Library) (cs : List Choice) → map (configured L) (map to_addition cs) ≡ map (chosen L) cs
map-configured L [] = refl
map-configured L (c ∷ cs) =
    λ i. new_resolver_config_server-options L c.address c.options i ∷ map-configured L cs i

-- After any calls of `AddServer`, at least one, on a new configuration, the servers are those that
-- were added, in the order of the calls. Each has its address, and for the query options and the
-- timeout the last value that its call gave, or the default.
pub servers-chosen :
    (L : Library) (c : Choice) (cs : List Choice)
    → servers L (add_servers L new_config (map to_addition (c ∷ cs))) ≡ map (chosen L) (c ∷ cs)
servers-chosen L c cs =
    servers-add_servers L (to_addition c) (map to_addition cs) ∙ map-configured L (c ∷ cs)
