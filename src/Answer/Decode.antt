-- ===== src/Answer/Decode.antt =====
-- The decoders against the addresses of one type and the last alias.
use dnscore.Prelude.{
  ◌≡◌, refl, sym, ◌∙◌, ◌≢◌, ◌⊎◌, inl, inr, Bytes, List, [], ◌∷◌, ◌++◌, map, append_assoc,
  append-nil,
}
use dnscore.Errors.{sentinel, no_data}
use dnscore.Go.{Result, ok, err}
use dnscore.Dns.{Library, Rr, a_rr, aaaa_rr}
use dnscore.Response.{expect_name}
use dnscore.Response.Alias.{IsFinalName, expect_name-IsFinalName}
use dnscore.Answer.{
  Decoded, decode_a, decode_aaaa, loop_a, loop_aaaa, or_no_addrs, decode_lookup_a,
  decode_lookup_aaaa,
}

-- The addresses of the A records.
abbrev pub a_addresses : List Rr → List Bytes
a_addresses [] = []
a_addresses (a_rr _ ip ∷ rrs) = ip ∷ a_addresses rrs
a_addresses (_ ∷ rrs) = a_addresses rrs

-- The addresses of the AAAA records.
abbrev pub aaaa_addresses : List Rr → List Bytes
aaaa_addresses [] = []
aaaa_addresses (aaaa_rr _ ip ∷ rrs) = ip ∷ aaaa_addresses rrs
aaaa_addresses (_ ∷ rrs) = aaaa_addresses rrs

-- What a decoder returns at the texts of the addresses that it looks for: `ErrNoData` if there
-- are none, and otherwise all of them in order and the target of the last CNAME record, which is
-- empty if there is none.
abbrev pub Decodes : List Rr → List Bytes → Result Decoded → Type 0
Decodes rrs addrs r =
    ((addrs ≡ []) × (r ≡ err (sentinel no_data)))
    ⊎ ((addrs ≢ [])
        × ((final : Bytes) × IsFinalName [] rrs final
            × (r ≡ ok (record { addrs = addrs; cname = final }))))

module _ (L : Library) where
  loop_a_lem :
      (d : Decoded) (rrs : List Rr)
      → loop_a L d rrs ≡ record {
        addrs = d.addrs ++ map L.ip_string (a_addresses rrs);
        cname = expect_name d.cname rrs;
      }
  unfolding loop_a expect_name
  loop_a_lem d [] = λ i. record { addrs = sym (append-nil d.addrs) i; cname = d.cname }
  loop_a_lem d (a_rr h ip ∷ rrs) = loop_a_lem _ rrs ∙ λ i. record {
    addrs = append_assoc d.addrs (L.ip_string ip ∷ []) (map L.ip_string (a_addresses rrs)) i;
    cname = expect_name d.cname rrs;
  }
  loop_a_lem d (rr ∷ rrs) = loop_a_lem (decode_a L d rr) rrs

  loop_aaaa_lem :
      (d : Decoded) (rrs : List Rr)
      → loop_aaaa L d rrs ≡ record {
        addrs = d.addrs ++ map L.ip_string (aaaa_addresses rrs);
        cname = expect_name d.cname rrs;
      }
  unfolding loop_aaaa expect_name
  loop_aaaa_lem d [] = λ i. record { addrs = sym (append-nil d.addrs) i; cname = d.cname }
  loop_aaaa_lem d (aaaa_rr h ip ∷ rrs) = loop_aaaa_lem _ rrs ∙ λ i. record {
    addrs = append_assoc d.addrs (L.ip_string ip ∷ []) (map L.ip_string (aaaa_addresses rrs)) i;
    cname = expect_name d.cname rrs;
  }
  loop_aaaa_lem d (rr ∷ rrs) = loop_aaaa_lem (decode_aaaa L d rr) rrs

-- What the decoders' last test makes of the result of their loop.
or_no_addrs-Decodes :
    (rrs : List Rr) (d : Decoded) (addrs : List Bytes)
    → d ≡ record { addrs = addrs; cname = expect_name [] rrs }
    → Decodes rrs addrs (or_no_addrs d d.addrs)
or_no_addrs-Decodes rrs d [] e = inl (refl, rw e (unfold or_no_addrs in refl))
or_no_addrs-Decodes rrs d (x ∷ addrs) e = inr (
  (λ p. cc p),
  (expect_name [] rrs, expect_name-IsFinalName [] rrs, rw e (unfold or_no_addrs in refl)),
)

-- `DecodeLookupA` returns the texts of all A records in order, with the target of the last CNAME
-- record, or `ErrNoData` exactly if there is no A record.
pub decode_lookup_a-Decodes :
    (L : Library) (rrs : List Rr)
    → Decodes rrs (map L.ip_string (a_addresses rrs)) (decode_lookup_a L rrs)
unfolding decode_lookup_a
decode_lookup_a-Decodes L rrs = or_no_addrs-Decodes rrs _ _ (loop_a_lem L _ rrs)

-- `DecodeLookupAAAA` returns the texts of all AAAA records in order, with the target of the last
-- CNAME record, or `ErrNoData` exactly if there is no AAAA record.
pub decode_lookup_aaaa-Decodes :
    (L : Library) (rrs : List Rr)
    → Decodes rrs (map L.ip_string (aaaa_addresses rrs)) (decode_lookup_aaaa L rrs)
unfolding decode_lookup_aaaa
decode_lookup_aaaa-Decodes L rrs = or_no_addrs-Decodes rrs _ _ (loop_aaaa_lem L _ rrs)

-- `DecodeLookupA` and `DecodeLookupAAAA` each return the texts of all records of their type in order,
-- with the target of the last CNAME record, or `ErrNoData` exactly if there is no record of the type.
pub decode_lookups-Decodes :
    (L : Library) (rrs : List Rr)
    → Decodes rrs (map L.ip_string (a_addresses rrs)) (decode_lookup_a L rrs)
      × Decodes rrs (map L.ip_string (aaaa_addresses rrs)) (decode_lookup_aaaa L rrs)
decode_lookups-Decodes L rrs = (decode_lookup_a-Decodes L rrs, decode_lookup_aaaa-Decodes L rrs)
