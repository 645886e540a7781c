-- ===== src/Query/Tests.antt =====
-- Queries for a name without the final dot, and the padding of a query.
use dnscore.Prelude.{◌≡◌, refl, ℕ, ◌<◌, ◌%◌, [], ◌∷◌, replicate, codes, List}
use dnscore.Errors.{foreign}
use dnscore.Go.{ok, err}
use dnscore.Dns.{padding}
use dnscore.ServerAddr.{protocol_dot}
use dnscore.Runtime.Io.{pure, lift, ask, emit, ◌>>=◌}
use dnscore.Query.{
  QueryOption, query_option_edns0, query_option_id, new_query_with_server_addr, apply_options,
}
use dnscore.Query.Padding.{with_opt, query_option_edns0_padded}
use dnscore.Samples.{library, library-IsLawful}
use dnscore.Samples.World.{env, query, server}

query_option_edns0_padded_example :
    (n : ℕ) × (n < 128)
    × (query_option_edns0 library 4096 3 query
        ≡ ok (with_opt library query 4096 3 (padding (replicate n 0) ∷ [])))
    × (library.len (with_opt library query 4096 3 (padding (replicate n 0) ∷ [])) % 128 ≡ 0)
query_option_edns0_padded_example =
    query_option_edns0_padded library library-IsLawful query 4096 3 refl refl

-- An option that always fails.
abbrev refuse : QueryOption
refuse q = err (foreign "refused")

query_refused :
    new_query_with_server_addr library env
      (server protocol_dot)
      (codes "a")
      28
      (query_option_id 5 ∷ refuse ∷ [])
      []
    ≡ (
      err (foreign "refused"),
      (new_query_with_server_addr library env
          (server protocol_dot)
          (codes "a")
          28
          (query_option_id 5 ∷ refuse ∷ [])
          []).1,
    )
unfolding new_query_with_server_addr apply_options query_option_id pure lift ask emit ◌>>=◌
query_refused = refl

abbrev options : List QueryOption
options = query_option_id 5 ∷ refuse ∷ []
