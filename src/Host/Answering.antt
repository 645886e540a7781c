-- ===== src/Host/Answering.antt =====
-- `LookupHost` with one address from the A lookup and none from the AAAA lookup.
use dnscore.Prelude.{◌≡◌, refl, ap, ◌∙◌, ℕ, Bytes, none, List, [], ◌∷◌, Bool-cases, inl, inr}
use dnscore.Errors.{Error}
use dnscore.Go.{Result, ok, err}
use dnscore.Dns.{Library, Rr, type_a, type_aaaa}
use dnscore.Answer.{Decoded, decode_lookup_a, decode_lookup_aaaa}
use dnscore.Runtime.{Env, Trace, Context}
use dnscore.Runtime.Io.{Io, pure, lift, ◌>>=◌}
use dnscore.Runtime.Invert.{>>=-ok}
use dnscore.Resolver.{Resolver}
use dnscore.Lookup.{lookup}
use dnscore.Host.{
  has_colon, is_seen, resolver_dedup_and_sort, or_host_error, merge, merge_sent, merge_results,
  lookup_a, lookup_aaaa, Order, a_first, aaaa_first, lookup_host,
}

resolver_dedup_and_sort_once : (a : Bytes) → resolver_dedup_and_sort (a ∷ []) ≡ a ∷ []
unfolding resolver_dedup_and_sort is_seen
resolver_dedup_and_sort_once a = elim (Bool-cases (has_colon a)) [
  | inl c ↦ rw c refl
  | inr c ↦ rw c refl
]

merge_results_one : (a : Bytes) (e : Error) → merge_results (ok (a ∷ [])) (err e) ≡ ok (a ∷ [])
unfolding merge_results merge_sent merge or_host_error
merge_results_one a e = ap ok (resolver_dedup_and_sort_once a)

lift_fails :
    {A B : Type 0} (r : Result A) (f : A → Io B) (tr : Trace) {e : Error}
    → r ≡ err e
    → (lift r >>= f) tr ≡ (err e, tr)
unfolding lift ◌>>=◌
lift_fails r f tr h = rw h refl

module _ (L : Library) (E : Env) (r : Resolver) (ctx : Context) (host : Bytes) (rrs : List Rr)
    (not_ip : L.parse_ip host ≡ none)
    (finds : (qtype : ℕ) (tr : Trace)
      → (tr' : Trace) × (lookup L E r ctx host qtype tr ≡ (ok rrs, tr'))) where
  lookup_a-answers :
      (tr : Trace) {d : Decoded}
      → decode_lookup_a L rrs ≡ ok d
      → (tr' : Trace) × (lookup_a L E r ctx host tr ≡ (ok d.addrs, tr'))
  unfolding lookup_a lift pure
  lookup_a-answers tr {d} decoded =
      let (tr', found) = finds type_a tr in
      (tr', rw not_ip (>>=-ok _ _ found ∙ >>=-ok _ _ (λ i. (decoded i, tr'))))

  lookup_aaaa-fails :
      (tr : Trace) {e : Error}
      → decode_lookup_aaaa L rrs ≡ err e
      → (tr' : Trace) × (lookup_aaaa L E r ctx host tr ≡ (err e, tr'))
  unfolding lookup_aaaa
  lookup_aaaa-fails tr no_addr =
      let (tr', found) = finds type_aaaa tr in
      (tr', rw not_ip (>>=-ok _ _ found ∙ lift_fails _ _ tr' no_addr))

  pub lookup_host-answers :
      (order : Order) (tr : Trace) {addr cname : Bytes} {e : Error}
      → decode_lookup_a L rrs ≡ ok (record { addrs = addr ∷ []; cname = cname })
      → decode_lookup_aaaa L rrs ≡ err e
      → (tr' : Trace) × (lookup_host L E r ctx host order tr ≡ (ok (addr ∷ []), tr'))
  unfolding lookup_host
  lookup_host-answers a_first tr {addr} {cname} {e} decoded no_addr =
      let (mid, a) = lookup_a-answers tr decoded in
      let (end, aaaa) = lookup_aaaa-fails mid no_addr in
      (end, rw a (rw aaaa (λ i. (merge_results_one addr e i, end))))
  lookup_host-answers aaaa_first tr {addr} {cname} {e} decoded no_addr =
      let (mid, aaaa) = lookup_aaaa-fails tr no_addr in
      let (end, a) = lookup_a-answers mid decoded in
      (end, rw aaaa (rw a (λ i. (merge_results_one addr e i, end))))
