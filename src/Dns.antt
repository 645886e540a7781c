-- ===== src/Dns.antt =====
-- The messages of github.com/miekg/dns as far as the program reads or writes them, and the
-- functions of that library, of golang.org/x/net/idna and of package net that it calls on them,
-- which are parameters of the model: a `Library`, with what is documented of it in `IsLawful`.
use dnscore.Prelude.{ℕ, ◌+◌, ◌<◌, ◌^◌, ◌≡◌, Bytes, Bool, true, Option, some, List, [], ◌∷◌, ◌++◌}
use dnscore.Prelude.{length}
use dnscore.Go.{Result}

-- `dns.RR_Header`
pub record Header : Type 0 where
  pub name : Bytes
  pub rrtype : ℕ
  pub class : ℕ
  pub ttl : ℕ

-- `dns.EDNS0`: of its implementations the program makes only `*dns.EDNS0_PADDING`.
pub data Edns0 : Type 0 where
  padding : Bytes → Edns0
  other_option : ℕ → Bytes → Edns0

-- `dns.RR`: the types that the program's type switches name, and any other.
pub data Rr : Type 0 where
  a_rr : Header → Bytes → Rr
  aaaa_rr : Header → Bytes → Rr
  cname_rr : Header → Bytes → Rr
  opt_rr : Header → List Edns0 → Rr
  other_rr : Header → Bytes → Rr

-- The method `Header` of a `dns.RR`.
abbrev pub header : Rr → Header
header (a_rr h _) = h
header (aaaa_rr h _) = h
header (cname_rr h _) = h
header (opt_rr h _) = h
header (other_rr h _) = h

-- `dns.Question`
pub record Question : Type 0 where
  pub name : Bytes
  pub qtype : ℕ
  pub qclass : ℕ

-- `dns.Msg`
pub record Msg : Type 0 where
  pub id : ℕ
  pub response : Bool
  pub authoritative : Bool
  pub recursion_desired : Bool
  pub recursion_available : Bool
  pub rcode : ℕ
  pub question : List Question
  pub answer : List Rr
  pub extra : List Rr

-- `new(dns.Msg)`
abbrev pub new_msg : Msg
new_msg = record {
  id = 0;
  response = Bool.false;
  authoritative = Bool.false;
  recursion_desired = Bool.false;
  recursion_available = Bool.false;
  rcode = 0;
  question = [];
  answer = [];
  extra = [];
}

-- The constants of miekg/dns, which are those of the IANA registries.
abbrev pub class_inet : ℕ
class_inet = 1

abbrev pub type_a : ℕ
type_a = 1

abbrev pub type_aaaa : ℕ
type_aaaa = 28

abbrev pub rcode_success : ℕ
rcode_success = 0

abbrev pub rcode_server_failure : ℕ
rcode_server_failure = 2

abbrev pub rcode_name_error : ℕ
rcode_name_error = 3

-- `is_edns0` gives the place in `Extra` of the record that `IsEdns0` points to: the program writes
-- through that pointer. `opt_header` is the header of the record that `SetEdns0` makes.
pub record Library : Type 0 where
  pub to_ascii : Bytes → Result Bytes
  pub is_fqdn : Bytes → Bool
  pub fqdn : Bytes → Bytes
  pub canonical_name : Bytes → Bytes
  pub split_domain_name : Bytes → List Bytes
  pub opt_header : ℕ → Bool → Header
  pub set_edns0 : Msg → ℕ → Bool → Msg
  pub is_edns0 : Msg → Option ℕ
  pub udp_size : Header → ℕ
  pub len : Msg → ℕ
  pub pack : Msg → Result Bytes
  pub unpack : Bytes → Result Msg
  pub ip_string : Bytes → Bytes
  pub parse_ip : Bytes → Option Bytes

-- `n` pseudo-records stand in an additional section.
abbrev pub opt_count : List Rr → ℕ
opt_count [] = 0
opt_count (opt_rr _ _ ∷ rrs) = opt_count rrs + 1
opt_count (_ ∷ rrs) = opt_count rrs

-- An additional section in which one OPT record stands between the others.
abbrev pub around : List Rr → Header → List Edns0 → List Rr → List Rr
around xs h options ys = xs ++ (opt_rr h options ∷ ys)

-- What the library documents: `SetEdns0` appends an OPT record with that size, `IsEdns0` finds the
-- OPT record where there is just one, `Len` counts the four bytes before an option and the option,
-- and `Fqdn` makes a name fully qualified.
pub record IsLawful (L : Library) : Type 0 where
  pub set_edns0_lem :
      (m : Msg) (size : ℕ) (dnssec : Bool)
      → L.set_edns0 m size dnssec
        ≡ record m { extra = around m.extra (L.opt_header size dnssec) [] [] }
  pub udp_size-opt_header :
      (size : ℕ) (dnssec : Bool) → size < 2 ^ 16 → L.udp_size (L.opt_header size dnssec) ≡ size
  pub is_edns0_lem :
      (m : Msg) (xs : List Rr) (h : Header) (options : List Edns0) (ys : List Rr)
      → opt_count xs ≡ 0
      → opt_count ys ≡ 0
      → L.is_edns0 (record m { extra = around xs h options ys }) ≡ some (length xs)
  pub len-padding :
      (m : Msg) (xs : List Rr) (h : Header) (options : List Edns0) (ys : List Rr) (p : Bytes)
      → L.len (record m { extra = around xs h (options ++ padding p ∷ []) ys })
        ≡ L.len (record m { extra = around xs h options ys }) + 4 + length p
  pub is_fqdn-fqdn : (name : Bytes) → L.is_fqdn (L.fqdn name) ≡ true
