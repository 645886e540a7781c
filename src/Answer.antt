-- ===== src/Answer.antt =====
-- answer.go: the addresses and the canonical name in the records of an A or AAAA lookup.
pub mod Decode
mod Tests
use dnscore.Prelude.{Bytes, List, [], ◌∷◌, ◌++◌}
use dnscore.Errors
use dnscore.Errors.{sentinel}
use dnscore.Go.{Result, ok, err}
use dnscore.Dns.{Library, Rr, a_rr, aaaa_rr, cname_rr}

-- The named results that the loops write.
pub record Decoded : Type 0 where
  pub addrs : List Bytes
  pub cname : Bytes

-- `len(addrs) <= 0`
or_no_addrs : Decoded → List Bytes → Result Decoded
or_no_addrs d [] = err (sentinel Errors.no_data)
or_no_addrs d (_ ∷ _) = ok d

module _ (L : Library) where
  decode_a : Decoded → Rr → Decoded
  decode_a d (a_rr _ ip) = record d { addrs = d.addrs ++ L.ip_string ip ∷ [] }
  decode_a d (cname_rr _ target) = record d { cname = target }
  decode_a d _ = d

  decode_aaaa : Decoded → Rr → Decoded
  decode_aaaa d (aaaa_rr _ ip) = record d { addrs = d.addrs ++ L.ip_string ip ∷ [] }
  decode_aaaa d (cname_rr _ target) = record d { cname = target }
  decode_aaaa d _ = d

  loop_a : Decoded → List Rr → Decoded
  unfolding decode_a
  loop_a d [] = d
  loop_a d (answer ∷ rrs) = loop_a (decode_a d answer) rrs

  loop_aaaa : Decoded → List Rr → Decoded
  unfolding decode_aaaa
  loop_aaaa d [] = d
  loop_aaaa d (answer ∷ rrs) = loop_aaaa (decode_aaaa d answer) rrs

  unfoldable pub decode_lookup_a : List Rr → Result Decoded
  unfolding loop_a or_no_addrs
  decode_lookup_a rrs =
      let d = loop_a (record { addrs = []; cname = [] }) rrs in or_no_addrs d d.addrs

  unfoldable pub decode_lookup_aaaa : List Rr → Result Decoded
  unfolding loop_aaaa or_no_addrs
  decode_lookup_aaaa rrs =
      let d = loop_aaaa (record { addrs = []; cname = [] }) rrs in or_no_addrs d d.addrs
