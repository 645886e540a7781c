-- ===== src/Lookup/Opening.antt =====
-- lookup.go: how many connections a lookup opens.
use dnscore.Prelude.{refl, ℕ, zero, suc, ◌+◌, Bytes, List}
use dnscore.Prelude.Int.{pos_part}
use dnscore.Errors.{Error}
use dnscore.Dns.{Msg, Library}
use dnscore.ServerAddr.{ServerAddr}
use dnscore.Runtime.{Env, Context}
use dnscore.Runtime.Only.{Only-fail, Only-pure, Only-lift}
use dnscore.Transport.Opens.{
  Opens, Opens-Only, Opens-if, Opens-after, Opens-before, Opens-lift, Opens-catch,
}
use dnscore.Query.Build.{new_query_with_server_addr-Only}
use dnscore.ResolverConfig.{ResolverConfigServer}
use dnscore.Resolver.{Resolver, config, transport}
use dnscore.Lookup.{exchange, exchange_at, lookup_loop, lookup}
use dnscore.Lookup.Closing.{limit_time-Only, accept-Only}

module _ (L : Library) (E : Env) (r : Resolver)
    (one : (ctx : Context) (addr : ServerAddr) (q : Msg) → Opens 1 (transport L E r ctx addr q))
    (ctx : Context) (name : Bytes) (qtype : ℕ) where
  exchange-Opens : (server : ResolverConfigServer) → Opens 1 (exchange L E r ctx name qtype server)
  unfolding exchange
  exchange-Opens server = Opens-if _ _ _ (Opens-Only 1 _ (Only-fail _)) (
      Opens-after _ _ (limit_time-Only L E ctx server.timeout) (λ ctx'.
        Opens-after _ _
          (new_query_with_server_addr-Only L E server.address name qtype server.query_options
            (λ _. refl))
          (λ query. Opens-after _ _ (Only-lift _) (λ q0.
            Opens-before _ _ (one ctx' server.address query)
              (λ resp. Opens-Only 0 _ (accept-Only L E q0 query resp))))))

  exchange_at-Opens :
      (list : List ResolverConfigServer) (idx : ℕ)
      → Opens 1 (exchange_at L E r ctx name qtype list idx)
  unfolding exchange_at
  exchange_at-Opens list idx = Opens-lift _ _ (λ server _. exchange-Opens server)

  lookup_loop-Opens :
      (list : List ResolverConfigServer) (left idx : ℕ) (last_err : Error)
      → Opens left (lookup_loop L E r ctx name qtype list left idx last_err)
  unfolding lookup_loop
  lookup_loop-Opens list zero idx last_err = Opens-Only 0 _ (Only-fail _)
  lookup_loop-Opens list (suc left) idx last_err =
      Opens-catch _ _ _ (exchange_at-Opens list idx)
        (λ e.
          Opens-if _ _ _ (Opens-Only left _ (Only-fail e))
            (lookup_loop-Opens list left (idx + 1) e))
        (λ rrs. Opens-Only left _ (Only-pure rrs))

  pub lookup-Opens : Opens (pos_part (config r).attempts) (lookup L E r ctx name qtype)
  unfolding lookup
  lookup-Opens = Opens-if _ _ _ (lookup_loop-Opens _ _ _ _) (Opens-Only _ _ (Only-fail _))
