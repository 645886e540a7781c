-- ===== src/Samples.antt =====
-- A small library of DNS functions and a small world, at which the tests evaluate the model.
pub mod World
use dnscore.Prelude.{
  ℕ, suc, ◌+◌, ◌%◌, ◌^◌, ◌<◌, ◌≡◌, refl, sym, ap, ◌∙◌, Bytes, Bool, true, false, Option, none, some,
  List, [], ◌∷◌, ◌++◌, map, length, ◌==◌, codes, arith, if◌then◌else◌,
}
use mathlib.Core.Option
use dnscore.Errors.{foreign}
use dnscore.Go.{Result, ok, err}
use dnscore.Dns.{
  Header, Edns0, padding, other_option, Rr, a_rr, opt_rr, Question, Msg, Library, IsLawful, new_msg,
  class_inet, opt_count, around,
}

abbrev is_fqdn : Bytes → Bool
is_fqdn [] = false
is_fqdn (c ∷ []) = c == b'.'
is_fqdn (_ ∷ c ∷ cs) = is_fqdn (c ∷ cs)

-- The labels between dots, given the label that was begun.
abbrev labels : Bytes → Bytes → List Bytes
labels label [] = label ∷ []
labels label (c ∷ cs) =
    let split = label ∷ labels [] cs in
    let longer = labels (label ++ c ∷ []) cs in if c == b'.' then split else longer

abbrev option_len : Edns0 → ℕ
option_len (padding p) = 4 + length p
option_len (other_option _ p) = 4 + length p

abbrev options_len : List Edns0 → ℕ
options_len [] = 0
options_len (o ∷ os) = option_len o + options_len os

abbrev rr_len : Rr → ℕ
rr_len (opt_rr _ os) = 11 + options_len os
rr_len _ = 16

abbrev rrs_len : List Rr → ℕ
rrs_len [] = 12
rrs_len (rr ∷ rrs) = rr_len rr + rrs_len rrs

abbrev opt_place : List Rr → Option ℕ
opt_place [] = none
opt_place (opt_rr _ _ ∷ rrs) = some 0
opt_place (_ ∷ rrs) = Option.map suc (opt_place rrs)

-- A message is its ID, and the type and the name of its first question.
abbrev pack_first : ℕ → List Question → Result Bytes
pack_first id [] = err (foreign "no question")
pack_first id (q ∷ _) = ok (id ∷ q.qtype ∷ q.name)

-- The reply to a question has one A record.
abbrev pub reply : ℕ → ℕ → Bytes → Msg
reply id qtype name = record new_msg {
  id = id;
  response = true;
  recursion_available = true;
  question = record { name = name; qtype = qtype; qclass = class_inet } ∷ [];
  answer =
      a_rr (record { name = name; rrtype = 1; class = class_inet; ttl = 60 }) (codes "192.0.2.1")
      ∷ [];
}

abbrev unpack : Bytes → Result Msg
unpack (id ∷ qtype ∷ name) = ok (reply id qtype name)
unpack _ = err (foreign "short message")

-- Names that begin with a digit one are IP addresses.
abbrev parse_ip : Bytes → Option Bytes
parse_ip [] = none
parse_ip (c ∷ cs) = if c == b'1' then some (c ∷ cs) else none

abbrev to_ascii : Bytes → Result Bytes
to_ascii [] = err (foreign "empty name")
to_ascii (c ∷ cs) = ok (c ∷ cs)

abbrev pub library : Library
library = record {
  to_ascii = to_ascii;
  is_fqdn = is_fqdn;
  fqdn = λ name. name ++ b'.' ∷ [];
  canonical_name = λ name. name;
  split_domain_name = labels [];
  opt_header = λ size dnssec. record { name = b'.' ∷ []; rrtype = 41; class = size; ttl = 0 };
  set_edns0 = λ m size dnssec. record m {
    extra =
        m.extra ++ opt_rr (record { name = b'.' ∷ []; rrtype = 41; class = size; ttl = 0 }) [] ∷ [];
  };
  is_edns0 = λ m. opt_place m.extra;
  udp_size = λ h. h.class % 2 ^ 16;
  len = λ m. rrs_len m.extra;
  pack = λ m. pack_first m.id m.question;
  unpack = unpack;
  ip_string = λ ip. ip;
  parse_ip = parse_ip;
}

is_fqdn-dot : (name : Bytes) → is_fqdn (name ++ b'.' ∷ []) ≡ true
is_fqdn-dot [] = refl
is_fqdn-dot (c ∷ []) = refl
is_fqdn-dot (_ ∷ c ∷ cs) = is_fqdn-dot (c ∷ cs)

opt_place-around :
    (xs : List Rr) (h : Header) (os : List Edns0) (ys : List Rr)
    → opt_count xs ≡ 0
    → opt_place (around xs h os ys) ≡ some (length xs)
opt_place-around [] h os ys e = refl
opt_place-around (opt_rr _ _ ∷ xs) h os ys e = absurd (omega (arith, e))
opt_place-around (_ ∷ xs) h os ys e = ap (Option.map suc) (opt_place-around xs h os ys e)

options_len-append :
    (os : List Edns0) (p : Bytes)
    → options_len (os ++ padding p ∷ []) ≡ options_len os + 4 + length p
options_len-append [] p = omega arith
options_len-append (o ∷ os) p = omega (arith, options_len-append os p)

rrs_len-around :
    (xs : List Rr) (h : Header) (os : List Edns0) (ys : List Rr) (p : Bytes)
    → rrs_len (around xs h (os ++ padding p ∷ []) ys) ≡ rrs_len (around xs h os ys) + 4 + length p
rrs_len-around [] h os ys p = omega (arith, options_len-append os p)
rrs_len-around (x ∷ xs) h os ys p = omega (arith, rrs_len-around xs h os ys p)

pub library-IsLawful : IsLawful library
library-IsLawful = record {
  set_edns0_lem = λ m size dnssec. refl;
  udp_size-opt_header = λ size dnssec small. omega arith;
  is_edns0_lem = λ m xs h os ys hx hy. opt_place-around xs h os ys hx;
  len-padding = λ m xs h os ys p. rrs_len-around xs h os ys p;
  is_fqdn-fqdn = is_fqdn-dot;
}
