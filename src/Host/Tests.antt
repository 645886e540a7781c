-- ===== src/Host/Tests.antt =====
-- The results of two lookups, merged, and a lookup over TLS.
use dnscore.Prelude.{◌≡◌, ◌≢◌, ◌⊎◌, refl, Bytes, some, none, List, [], ◌∷◌, ◌++◌, codes}
use dnscore.Errors.{foreign, err_no_data}
use dnscore.Go.{Result, ok, err, panic}
use dnscore.Resolver.{Resolver, config}
use dnscore.ServerAddr.{protocol_dot}
use dnscore.Prelude.Int.{pos}
use dnscore.Host.Opening.{lookup_host-opened}
use dnscore.Transport.Wire.{opened}
use dnscore.Prelude.{◌≤◌, ◌+◌}
use dnscore.Prelude.{bytes_eq}
use dnscore.Errors.{Error, is_error}
use dnscore.Host.{
  dedup_addr, dedup_loop, host_error, error_or_no_data, or_host_error, merge, merge_sent,
  merge_results, resolver_dedup_and_sort, has_colon, is_seen, a_first, lookup_host,
}
use dnscore.Host.Distinct.{IsDistinct, resolver_dedup_and_sort-IsDistinct}
use dnscore.Host.Merge.{found, HasPriority, merge_results_outcome, lookup_host_literal}
use dnscore.Samples.{library}
use dnscore.Samples.World.{env, ctx, server}

abbrev v4 : Bytes
v4 = codes "192.0.2.1"

abbrev v6 : Bytes
v6 = codes "2001:db8::1"

resolver_dedup_and_sort-IsDistinct_example :
    IsDistinct (v6 ∷ v4 ∷ v6 ∷ []) (resolver_dedup_and_sort (v6 ∷ v4 ∷ v6 ∷ []))
resolver_dedup_and_sort-IsDistinct_example = resolver_dedup_and_sort-IsDistinct (v6 ∷ v4 ∷ v6 ∷ [])

-- A censored AAAA answer with the address of the A answer.
merged : merge_results (ok (v4 ∷ [])) (ok (v6 ∷ v4 ∷ [])) ≡ ok (v4 ∷ v6 ∷ [])
unfolding merge_results merge_sent merge or_host_error resolver_dedup_and_sort dedup_loop dedup_addr
    is_seen has_colon bytes_eq
merged = refl

both_failed : merge_results (err err_no_data) (err (foreign "refused")) ≡ err (foreign "refused")
unfolding merge_results merge_sent merge or_host_error host_error error_or_no_data is_error
both_failed = refl

abbrev no_answer : Result (List Bytes)
no_answer = err err_no_data

abbrev refused : Result (List Bytes)
refused = err (foreign "refused")

merge_results_outcome_example :
    ((no_answer ≡ panic) ⊎ (refused ≡ panic)) × (merge_results no_answer refused ≡ panic)
    ⊎ ((out : List Bytes) × (merge_results no_answer refused ≡ ok out)
        × (found no_answer ++ found refused ≢ [])
        × IsDistinct (found no_answer ++ found refused) out)
    ⊎ ((e : Error) × (merge_results no_answer refused ≡ err e)
        × (found no_answer ++ found refused ≡ [])
        × HasPriority no_answer refused e)
merge_results_outcome_example = merge_results_outcome no_answer refused

abbrev resolver : Resolver
resolver = record { config = none; transport = none }

literal : lookup_host library env resolver ctx v4 a_first [] ≡ (ok (v4 ∷ []), [])
literal = lookup_host_literal library env resolver ctx v4 a_first [] refl

-- One server, asked over TLS.
abbrev dot_resolver : Resolver
dot_resolver = record {
  config = some (record {
    attempts = pos 2;
    list = record { address = server protocol_dot; query_options = []; timeout = pos 50 } ∷ [];
  });
  transport = none;
}

lookup_host-opened_example :
    opened (lookup_host library env dot_resolver ctx (codes "a.") a_first []).1 ≤ 0 + (2 + 2)
lookup_host-opened_example =
    lookup_host-opened library env dot_resolver ctx (codes "a.") a_first [] refl
