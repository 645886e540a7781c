-- ===== src/Answer/Tests.antt =====
-- The records of a reply, decoded.
use dnscore.Prelude.{[], ◌∷◌, map, codes}
use dnscore.Dns.{Rr, a_rr, aaaa_rr, cname_rr, Header, class_inet}
use dnscore.Prelude.{List}
use dnscore.Answer.{decode_lookup_a, decode_lookup_aaaa}
use dnscore.Answer.Decode.{Decodes, a_addresses, aaaa_addresses, decode_lookups-Decodes}
use dnscore.Samples.{library}

abbrev owner : Header
owner = record { name = codes "a."; rrtype = 1; class = class_inet; ttl = 60 }

abbrev records : List Rr
records =
    cname_rr owner (codes "b.")
    ∷ aaaa_rr owner (codes "2001:db8::1")
    ∷ a_rr owner (codes "192.0.2.1")
    ∷ []

decode_lookups-Decodes_example :
    Decodes records (map (λ ip. ip) (a_addresses records)) (decode_lookup_a library records)
    × Decodes records (map (λ ip. ip) (aaaa_addresses records)) (decode_lookup_aaaa library records)
decode_lookups-Decodes_example = decode_lookups-Decodes library records
