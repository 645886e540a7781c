-- ===== src/Host/Opening.antt =====
-- resolver.go: how many connections `LookupHost` opens.
use dnscore.Prelude.{◌≡◌, ◌+◌, ◌≤◌, Bytes, none, arith}
use dnscore.Prelude.Int.{pos_part}
use dnscore.Dns.{Library, type_a, type_aaaa}
use dnscore.Runtime.{Env, Trace, Context}
use dnscore.Runtime.Only.{Only-lift, Only-pure}
use dnscore.Transport.{default_transport}
use dnscore.Transport.Wire.{opened}
use dnscore.Transport.Opens.{Opens, Opens-Only, Opens-if, Opens-before}
use dnscore.Dispatch.Opening.{query-Opens}
use dnscore.Resolver.{Resolver, config}
use dnscore.Lookup.Opening.{lookup-Opens}
use dnscore.Host.{Order, a_first, aaaa_first, lookup_a, lookup_aaaa, lookup_host}

module _ (L : Library) (E : Env) (r : Resolver) (ctx : Context) (host : Bytes)
    (default_hook : r.transport ≡ none) where
  lookup_a-Opens : Opens (pos_part (config r).attempts) (lookup_a L E r ctx host)
  unfolding lookup_a
  lookup_a-Opens = Opens-if _ _ _ (Opens-Only _ _ (Only-pure _)) (
      Opens-before _ _
        (lookup-Opens L E r (rw default_hook (query-Opens L E default_transport)) ctx host type_a)
        (λ rrs.
          Opens-before _ _ (Opens-Only 0 _ (Only-lift _)) (λ d. Opens-Only 0 _ (Only-pure _))))

  lookup_aaaa-Opens : Opens (pos_part (config r).attempts) (lookup_aaaa L E r ctx host)
  unfolding lookup_aaaa
  lookup_aaaa-Opens = Opens-if _ _ _ (Opens-Only _ _ (Only-pure _)) (
      Opens-before _ _
        (lookup-Opens L E r (rw default_hook (query-Opens L E default_transport)) ctx host
          type_aaaa)
        (λ rrs.
          Opens-before _ _ (Opens-Only 0 _ (Only-lift _)) (λ d. Opens-Only 0 _ (Only-pure _))))

-- Let the resolver have the default transport. Then `LookupHost` opens at most two connections for
-- each attempt that its configuration allows, over any protocol, in either order of its lookups and
-- whatever it returns, a panic included; and none where the number of attempts is not positive.
pub lookup_host-opened :
    (L : Library) (E : Env) (r : Resolver) (ctx : Context) (host : Bytes) (order : Order)
    (tr : Trace)
    → r.transport ≡ none
    → opened (lookup_host L E r ctx host order tr).1
      ≤ opened tr + (pos_part (config r).attempts + pos_part (config r).attempts)
unfolding lookup_host
lookup_host-opened L E r ctx host a_first tr default_hook = omega (
  arith,
  (lookup_a-Opens L E r ctx host default_hook).at tr,
  (lookup_aaaa-Opens L E r ctx host default_hook).at (lookup_a L E r ctx host tr).1,
)
lookup_host-opened L E r ctx host aaaa_first tr default_hook = omega (
  arith,
  (lookup_aaaa-Opens L E r ctx host default_hook).at tr,
  (lookup_a-Opens L E r ctx host default_hook).at (lookup_aaaa L E r ctx host tr).1,
)
