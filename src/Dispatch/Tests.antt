-- ===== src/Dispatch/Tests.antt =====
-- The entry points with a context that is done.
use dnscore.Prelude.{
  ◌≡◌, ◌≢◌, ◌⊎◌, ◌≤◌, ◌∙◌, ap, sym, str_eq_iff, arith, refl, true, [], ◌∷◌, ◌==◌, leb,
  if◌then◌else◌,
}
use dnscore.Errors.{
  foreign, sentinel, wrapped, no_such_transport_protocol, transport_cannot_receive_duplicates,
}
use dnscore.Go.{ok, err}
use dnscore.ServerAddr.{protocol_tcp, protocol_udp, protocol_doh}
use dnscore.Transport.{Transport, default_transport}
use dnscore.Transport.Balance.{Balanced}
use dnscore.Udp.{edns0_max_response_size}
use dnscore.Https.{query_https}
use dnscore.Https.Answering.{query_https-answers}
use dnscore.Runtime.{Env}
use dnscore.Dispatch.Bounds.{IsSound, IsBounded, query-IsBounded}
use dnscore.Dispatch.Closing.{query-Balanced}
use dnscore.Dispatch.{query, query_with_duplicates}
use dnscore.Dispatch.Refusals.{IsKnown, gave_up, entry_points_refuse}
use dnscore.Samples.{library, reply}
use dnscore.Samples.World
use dnscore.Samples.World.{env, ctx, canceled, server, raw_reply}

abbrev logging : Transport
logging = record default_transport { logger = true }

short : 4 ≤ edns0_max_response_size library World.query
unfolding edns0_max_response_size
short = omega arith

tcp-ne-udp : protocol_tcp ≢ protocol_udp
tcp-ne-udp e = absurd (cc ((str_eq_iff protocol_tcp protocol_udp).1 e))

entry_points_refuse_example :
    ((IsKnown "quic"
        × (query library env default_transport canceled (server "quic") World.query []
            ≡ (err (foreign "context canceled"), [])))
      ⊎ (¬ IsKnown "quic"
          × (query library env default_transport canceled (server "quic") World.query []
              ≡ (err (wrapped (sentinel no_such_transport_protocol) "quic"), []))))
    × ((("quic" ≡ protocol_udp)
          × (query_with_duplicates library env default_transport 3 canceled
                (server "quic")
                World.query
                []
              ≡ (ok true, gave_up (foreign "context canceled") [])))
        ⊎ (("quic" ≢ protocol_udp)
            × (query_with_duplicates library env default_transport 3 canceled
                  (server "quic")
                  World.query
                  []
                ≡ (
                  ok true,
                  gave_up (wrapped (sentinel transport_cannot_receive_duplicates) "quic") [],
                ))))
entry_points_refuse_example =
    entry_points_refuse library env default_transport 3 canceled (server "quic") World.query [] refl

query-Balanced_example :
    Balanced (query library env default_transport ctx (server protocol_tcp) World.query)
query-Balanced_example =
    query-Balanced library env default_transport ctx (server protocol_tcp) World.query tcp-ne-udp

-- A world whose connections give no more than they are asked for.
abbrev sound_world : Env
sound_world = record env {
  read = λ tr conn n. if leb 4 n then ok raw_reply else err (foreign "i/o timeout");
  read_full = λ tr conn n.
      if n == 2 then ok (0 ∷ 4 ∷ []) else if n == 4 then ok raw_reply else err (foreign "EOF");
}

sound : IsSound library sound_world
sound = record {
  read_fits = λ tr conn n h. ground arith;
  read_full_fits = λ tr conn n h. ground arith;
  size_fits = λ h. omega arith;
}

bounded_run :
    query library sound_world default_transport ctx (server protocol_doh) World.query [] ≡ (
      ok (reply 7 1 World.name),
      (query library sound_world default_transport ctx (server protocol_doh) World.query []).1,
    )
unfolding query query_https
bounded_run =
    let (end, ran) =
      query_https-answers library sound_world default_transport ctx (server protocol_doh)
        World.query [] refl refl refl refl short refl (λ at. refl) in
    ran ∙ ap (λ r. (ok (reply 7 1 World.name), r.1)) (sym ran)

query-IsBounded_example : IsBounded library (reply 7 1 World.name)
query-IsBounded_example =
    query-IsBounded library sound_world default_transport ctx (server protocol_doh) World.query [] _
      sound refl bounded_run
