-- ===== src/Resolver.antt =====
-- resolver.go and lookup.go: the resolver, with its optional configuration and transport.
use dnscore.Prelude.{Option, none, some}
use dnscore.Dns.{Msg, Library}
use dnscore.ServerAddr.{ServerAddr}
use dnscore.Runtime.{Env, Context}
use dnscore.Runtime.Io.{Io}
use dnscore.ResolverConfig.{ResolverConfig, new_config}
use dnscore.Transport.{default_transport}
use dnscore.Transport.Balance.{Balanced}
use dnscore.Dispatch.{query}

-- The method `Query` of a transport, which leaves the query as it is.
abbrev pub ResolverTransport : Type 0
ResolverTransport = Context → ServerAddr → Msg → Io Msg

pub record Resolver : Type 0 where
  pub config : Option ResolverConfig
  pub transport : Option ResolverTransport

-- The method `config`.
abbrev pub config : Resolver → ResolverConfig
config r = or_new r.config
  where
    or_new : Option ResolverConfig → ResolverConfig
    or_new none = new_config
    or_new (some c) = c

-- The method `transport`, with `DefaultTransport`.
abbrev pub transport : Library → Env → Resolver → ResolverTransport
transport L E r = or_default r.transport
  where
    or_default : Option ResolverTransport → ResolverTransport
    or_default none = query L E default_transport
    or_default (some t) = t

-- What the resolver may ask of its transport: to close the connections that it opens, for the
-- addresses in question.
pub record ClosesAt (IsSafe : ServerAddr → Type 0) (T : ResolverTransport) : Type 0 where
  pub closes : (ctx : Context) (addr : ServerAddr) (q : Msg) → IsSafe addr → Balanced (T ctx addr q)
