-- ===== src/Lookup/Tests.antt =====
-- Lookups with a transport that gives the sample reply.
use dnscore.Prelude.{
  ◌≡◌, refl, ◌<◌, ◌^◌, true, false, some, [], ◌∷◌, length, codes, bytes_eq, arith,
}
use dnscore.Prelude.Int.{pos}
use dnscore.Errors.{err_no_data}
use dnscore.Go.{ok, panic}
use dnscore.Dns.{Msg}
use dnscore.Runtime.{Trace}
use dnscore.Runtime.Io.{pure, fail, lift, ask, call, check, emit, ◌>>=◌}
use dnscore.ServerAddr.{protocol_dot}
use dnscore.Query.{QueryOption, apply_options, new_query_with_server_addr}
use dnscore.Response.{equal_ascii_name, validate_response, rcode_to_error, valid_answers}
use dnscore.ResolverConfig.{ResolverConfigServer, servers}
use dnscore.Resolver.{Resolver, config}
use dnscore.Lookup.{is_onion, first_question, limit_time, accept, exchange, lookup}
use dnscore.Lookup.Exchange.{Answered, exchange-Answered, exchange_no_question}
use dnscore.Lookup.Rounds.{Rounds, lookup-Rounds}
use dnscore.Samples.{library, reply}
use dnscore.Samples.World.{env, ctx, name, server}

abbrev plain : ResolverConfigServer
plain = record { address = server protocol_dot; query_options = []; timeout = pos 50 }

abbrev resolver : Resolver
resolver = record {
  config = some (record { attempts = pos 3; list = plain ∷ [] });
  transport = some (λ ctx addr q. pure (reply q.id 1 name));
}

few_servers : length (servers library (config resolver)) < 2 ^ 32
unfolding servers
few_servers = omega arith

lookup-Rounds_example :
    Rounds library env resolver ctx name 1
      (servers library (config resolver))
      0
      3
      err_no_data
      []
      (lookup library env resolver ctx name 1 [])
lookup-Rounds_example = lookup-Rounds library env resolver ctx name 1 [] few_servers

onion_name : is_onion library (codes "b.onion") ≡ true
unfolding is_onion bytes_eq
onion_name = refl

exchange_run :
    exchange library env resolver ctx name 1 plain []
    ≡ (ok (reply 7 1 name).answer, (exchange library env resolver ctx name 1 plain []).1)
unfolding exchange is_onion bytes_eq limit_time first_question accept new_query_with_server_addr
    apply_options validate_response rcode_to_error valid_answers equal_ascii_name pure fail lift ask
    call check emit ◌>>=◌
exchange_run = refl

exchange-Answered_example :
    Answered library env resolver ctx name 1 plain []
      (exchange library env resolver ctx name 1 plain []).1
      (reply 7 1 name).answer
exchange-Answered_example =
    exchange-Answered library env resolver ctx name 1 plain [] _ exchange_run

-- An option that empties the question section.
abbrev ask_nothing : QueryOption
ask_nothing q = ok (record q { question = [] })

abbrev asks_nothing : ResolverConfigServer
asks_nothing = record plain { query_options = ask_nothing ∷ [] }

plain_name : is_onion library name ≡ false
unfolding is_onion bytes_eq
plain_name = refl

nothing_asked :
    (at : Trace)
    → (q : Msg) × (mid : Trace) × (new_query_with_server_addr library env asks_nothing.address name
          1 asks_nothing.query_options at
        ≡ (ok q, mid))
      × (q.question ≡ [])
unfolding new_query_with_server_addr apply_options pure lift ask emit ◌>>=◌
nothing_asked at = (_, _, refl, refl)

exchange_no_question_example : (exchange library env resolver ctx name 1 asks_nothing []).0 ≡ panic
exchange_no_question_example =
    exchange_no_question library env resolver ctx name 1 asks_nothing [] plain_name nothing_asked
