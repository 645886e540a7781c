-- ===== src/ResolverConfig/Defaults.antt =====
-- What the default query options of a server do to a query.
use dnscore.Prelude.{
  String, ◌≡◌, refl, ◌⊎◌, ◌≢◌, inl, inr, ℕ, ◌<◌, ◌%◌, [], ◌∷◌, replicate, Bool-cases, str_eq,
  str_eq_iff, false,
}
use dnscore.Go.{ok}
use dnscore.Dns.{Msg, Library, IsLawful, opt_count, padding}
use dnscore.ServerAddr.{ServerAddr, protocol_udp, protocol_tcp, protocol_dot, protocol_doh}
use dnscore.Query.{apply_options, query_option_edns0}
use dnscore.Query.Padding.{with_opt, query_option_edns0_plain, query_option_edns0_padded}
use dnscore.ResolverConfig.{default_query_options}

-- The query with one OPT record: over an encrypted transport it advertises 4096 bytes, asks for
-- DNSSEC, and is padded to a multiple of 128 bytes; over TCP it advertises 4096 bytes, over UDP
-- 1232 bytes. Over an unknown protocol the query is unchanged.
abbrev pub HasDefaults : Library → ServerAddr → Msg → Msg → Type 0
HasDefaults L addr q q' =
    (((addr.protocol ≡ protocol_doh) ⊎ (addr.protocol ≡ protocol_dot))
      × ((n : ℕ) × (n < 128)
          × (q' ≡ with_opt L q 4096 3 (padding (replicate n 0) ∷ []))
          × (L.len q' % 128 ≡ 0)))
    ⊎ ((addr.protocol ≡ protocol_tcp) × (q' ≡ with_opt L q 4096 0 []))
    ⊎ ((addr.protocol ≡ protocol_udp) × (q' ≡ with_opt L q 1232 0 []))
    ⊎ ((addr.protocol ≢ protocol_doh)
        × (addr.protocol ≢ protocol_dot)
        × (addr.protocol ≢ protocol_tcp)
        × (addr.protocol ≢ protocol_udp)
        × (q' ≡ q))

module _ (L : Library) (law : IsLawful L) (q : Msg) (fresh : opt_count q.extra ≡ 0) where
  abbrev Secure : Type 0
  Secure =
      (q' : Msg) × (apply_options (query_option_edns0 L 4096 3 ∷ []) q ≡ ok q')
      × ((n : ℕ) × (n < 128)
          × (q' ≡ with_opt L q 4096 3 (padding (replicate n 0) ∷ []))
          × (L.len q' % 128 ≡ 0))

  apply-Secure : Secure
  unfolding apply_options
  apply-Secure =
      let (n, lt, e, m) = query_option_edns0_padded L law q 4096 3 refl fresh in
      (with_opt L q 4096 3 (padding (replicate n 0) ∷ []), rw e, (n, lt, refl, m))

  apply-plain :
      (size : ℕ) → apply_options (query_option_edns0 L size 0 ∷ []) q ≡ ok (with_opt L q size 0 [])
  unfolding apply_options
  apply-plain size = rw (query_option_edns0_plain L law q size 0 refl)

ne_of_test : {s t : String} → str_eq s t ≡ false → s ≢ t
ne_of_test {s} {t} f e = cc (f, (str_eq_iff s t).1 e)

-- On a query without an OPT record, the options that a server has by default succeed and add what
-- its protocol calls for.
pub default_query_options-HasDefaults :
    (L : Library) (addr : ServerAddr) (q : Msg)
    → IsLawful L
    → opt_count q.extra ≡ 0
    → (q' : Msg) × (apply_options (default_query_options L addr) q ≡ ok q')
      × HasDefaults L addr q q'
unfolding default_query_options
default_query_options-HasDefaults L addr q law fresh =
    let (q', e, padded) = apply-Secure L law q fresh in
    elim (Bool-cases (str_eq addr.protocol protocol_doh)) [
      | inl doh ↦ (q', rw doh e, inl (inl ((str_eq_iff _ _).0 doh), padded))
      | inr not_doh ↦ elim (Bool-cases (str_eq addr.protocol protocol_dot)) [
        | inl dot ↦ (q', rw (not_doh, dot) e, inl (inr ((str_eq_iff _ _).0 dot), padded))
        | inr not_dot ↦ elim (Bool-cases (str_eq addr.protocol protocol_tcp)) [
          | inl tcp ↦ (
            with_opt L q 4096 0 [],
            rw (not_doh, not_dot, tcp) (apply-plain L law q fresh 4096),
            inr (inl ((str_eq_iff _ _).0 tcp, refl)),
          )
          | inr not_tcp ↦ elim (Bool-cases (str_eq addr.protocol protocol_udp)) [
            | inl udp ↦ (
              with_opt L q 1232 0 [],
              rw (not_doh, not_dot, not_tcp, udp) (apply-plain L law q fresh 1232),
              inr (inr (inl ((str_eq_iff _ _).0 udp, refl))),
            )
            | inr not_udp ↦ (
              q,
              rw (not_doh, not_dot, not_tcp, not_udp) (unfold apply_options in refl),
              inr (
                  inr (
                    inr (
                      ne_of_test not_doh,
                      ne_of_test not_dot,
                      ne_of_test not_tcp,
                      ne_of_test not_udp,
                      refl,
                    ))),
            )
          ]
        ]
      ]
    ]
