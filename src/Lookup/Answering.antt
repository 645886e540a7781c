-- ===== src/Lookup/Answering.antt =====
-- lookup.go: a lookup whose first exchange succeeds.
use dnscore.Prelude.{◌≡◌, refl, ap, ◌∙◌, ℕ, suc, Bytes, false, none, List, [], ◌∷◌}
use dnscore.Prelude.Int.{pos_part}
use dnscore.Go.{ok}
use dnscore.Dns.{Library, Msg, Question, Rr}
use dnscore.Runtime.{Env, Trace, Context}
use dnscore.Runtime.Io.{pure, lift, check, catch, handle}
use dnscore.Runtime.Invert.{>>=-ok}
use dnscore.Query.{new_query_with_server_addr}
use dnscore.Response.{validate_response, rcode_to_error, valid_answers}
use dnscore.ResolverConfig.{ResolverConfigServer, servers}
use dnscore.Resolver.{Resolver, config, transport}
use dnscore.Lookup.{
  is_onion, first_question, accept, exchange, server_at, exchange_at, lookup_loop, lookup,
}
use dnscore.Lookup.Exchange.{IsLimited, limit_time_ok, limit_time_total}

-- An exchange from this history on: a query with one question is built, the server answers, and the
-- response is accepted with these records.
pub record Answering (L : Library) (E : Env) (r : Resolver) (name : Bytes) (qtype : ℕ)
    (server : ResolverConfigServer) (limited : Context) (started : Trace) (rrs : List Rr)
    : Type 0 where
  pub query : Msg
  pub q0 : Question
  pub resp : Msg
  pub built : Trace
  pub end : Trace
  pub made :
      new_query_with_server_addr L E server.address name qtype server.query_options started
      ≡ (ok query, built)
  pub asks : query.question ≡ q0 ∷ []
  pub answered : transport L E r limited server.address query built ≡ (ok resp, end)
  pub validated : validate_response query resp ≡ none
  pub no_error : rcode_to_error resp ≡ none
  pub answers : valid_answers q0 resp ≡ ok rrs

module _ (L : Library) (E : Env) (r : Resolver) (ctx : Context) (name : Bytes) (qtype : ℕ)
    (server : ResolverConfigServer) (rrs : List Rr) (not_onion : is_onion L name ≡ false)
    (answers : (tr started : Trace) (limited : Context)
      → IsLimited E ctx server.timeout tr limited started
      → Answering L E r name qtype server limited started rrs) where
  exchange-answers :
      (tr : Trace) → (tr' : Trace) × (exchange L E r ctx name qtype server tr ≡ (ok rrs, tr'))
  unfolding exchange first_question accept lift check
  exchange-answers tr =
      let (limited, started, l) = limit_time_total L E ctx server.timeout tr in
      let a = answers tr started limited (limit_time_ok L E ctx server.timeout tr l) in
      (
        a.end,
        rw not_onion (
            >>=-ok _ _ l
            ∙ >>=-ok _ _ a.made
            ∙ >>=-ok _ _ (λ i. (first_question (a.asks i), a.built))
            ∙ >>=-ok _ _ a.answered
            ∙ >>=-ok _ _ (λ i. check (a.validated i) a.end)
            ∙ >>=-ok _ _ (λ i. check (a.no_error i) a.end)
            ∙ λ i. (a.answers i, a.end)),
      )

  -- With the one server, it is the first attempt.
  pub lookup-answers :
      (left : ℕ) (tr : Trace)
      → servers L (config r) ≡ server ∷ []
      → pos_part (config r).attempts ≡ suc left
      → (tr' : Trace) × (lookup L E r ctx name qtype tr ≡ (ok rrs, tr'))
  unfolding lookup lookup_loop exchange_at server_at lift catch handle pure
  lookup-answers left tr one some_attempts =
      let (tr', ran) = exchange-answers tr in
      (tr', rw (one, some_attempts) (ap (handle _ pure) (>>=-ok _ _ refl ∙ ran)))
