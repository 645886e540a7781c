-- ===== src/Commands/Flags.antt =====
-- What the flags of the commands stand for, and the text of a list of addresses.
use dnscore.Prelude.{
  ◌≡◌, ◌≢◌, ◌↔◌, ◌⊎◌, inl, inr, refl, sym, ap, ◌∙◌, ◌++◌, ℕ, Bytes, String, false, List, [], ◌∷◌,
  str_eq, str_eq_iff, Bool-cases, append-nil,
}
use dnscore.Go.{ok}
use dnscore.Commands.{dns_type, edns0_flags, max_length, words}

-- The code of a type, by its name.
abbrev pub IsType : String → ℕ → Type 0
IsType name code =
    (name ≡ "A") × (code ≡ 1)
    ⊎ (name ≡ "AAAA") × (code ≡ 28)
    ⊎ (name ≡ "CNAME") × (code ≡ 5)
    ⊎ (name ≡ "HTTPS") × (code ≡ 65)

-- The size and the flags of the EDNS(0) option, by the name of the protocol: 1 asks for DNSSEC and 2
-- for padding.
abbrev pub IsEdns0 : String → ℕ → ℕ → Type 0
IsEdns0 protocol size flags =
    (protocol ≡ "udp") × (size ≡ 1232) × (flags ≡ 0)
    ⊎ ((protocol ≡ "dot") ⊎ (protocol ≡ "doh")) × (size ≡ 4096) × (flags ≡ 3)
    ⊎ (protocol ≢ "udp") × (protocol ≢ "dot") × (protocol ≢ "doh") × (size ≡ 4096) × (flags ≡ 0)

-- Two strings are equal, or the test says that they are not.
str_cases : (s t : String) → (s ≡ t) ⊎ ((s ≢ t) × (str_eq s t ≡ false))
str_cases s t = elim (Bool-cases (str_eq s t)) [
  | inl e ↦ inl ((str_eq_iff s t).0 e)
  | inr f ↦ inr ((λ e. absurd (cc (f, (str_eq_iff s t).1 e))), f)
]

found_code : (name : String) (code : ℕ) → dns_type name ≡ ok code → IsType name code
unfolding dns_type
found_code name code h = elim (str_cases name "A") [
  | inl p ↦ inl (p, cc (sym (ap dns_type p) ∙ h))
  | inr (_, n) ↦ elim (str_cases name "AAAA") [
    | inl p ↦ inr (inl (p, cc (sym (ap dns_type p) ∙ h)))
    | inr (_, m) ↦ elim (str_cases name "CNAME") [
      | inl p ↦ inr (inr (inl (p, cc (sym (ap dns_type p) ∙ h))))
      | inr (_, o) ↦ elim (str_cases name "HTTPS") [
        | inl p ↦ inr (inr (inr (p, cc (sym (ap dns_type p) ∙ h))))
        | inr (_, u) ↦ absurd (cc (rw (n, m, o, u) at h))
      ]
    ]
  ]
]

known_code : (name : String) (code : ℕ) → IsType name code → dns_type name ≡ ok code
unfolding dns_type
known_code name code (inl (p, c)) = ap dns_type p ∙ ap ok (sym c)
known_code name code (inr (inl (p, c))) = ap dns_type p ∙ ap ok (sym c)
known_code name code (inr (inr (inl (p, c)))) = ap dns_type p ∙ ap ok (sym c)
known_code name code (inr (inr (inr (p, c)))) = ap dns_type p ∙ ap ok (sym c)

pub dns_type-IsType : (name : String) (code : ℕ) → (dns_type name ≡ ok code) ↔ IsType name code
dns_type-IsType name code = (found_code name code, known_code name code)

other_protocol :
    (protocol : String)
    → str_eq protocol "udp" ≡ false
    → str_eq protocol "dot" ≡ false
    → str_eq protocol "doh" ≡ false
    → (max_length protocol ≡ 4096) × (edns0_flags protocol ≡ 0)
unfolding max_length edns0_flags
other_protocol protocol not_udp not_dot not_doh = (rw not_udp refl, rw (not_dot, not_doh) refl)

test-false : (s t : String) → s ≢ t → str_eq s t ≡ false
test-false s t ne = elim (str_cases s t) [ inl e ↦ absurd (ne e) | inr (_, f) ↦ f ]

pub max_length-IsEdns0 :
    (protocol : String) → IsEdns0 protocol (max_length protocol) (edns0_flags protocol)
unfolding max_length edns0_flags
max_length-IsEdns0 protocol = elim (str_cases protocol "udp") [
  | inl p ↦ inl (p, ap max_length p, ap edns0_flags p)
  | inr (n, not_udp) ↦ elim (str_cases protocol "dot") [
    | inl p ↦ inr (inl (inl p, ap max_length p, ap edns0_flags p))
    | inr (m, not_dot) ↦ elim (str_cases protocol "doh") [
      | inl p ↦ inr (inl (inr p, ap max_length p, ap edns0_flags p))
      | inr (o, not_doh) ↦
          let (s, f) = other_protocol protocol not_udp not_dot not_doh in inr (inr (n, m, o, s, f))
    ]
  ]
]

pub IsEdns0-max_length :
    (protocol : String) (size flags : ℕ)
    → IsEdns0 protocol size flags
    → (max_length protocol ≡ size) × (edns0_flags protocol ≡ flags)
unfolding max_length edns0_flags
IsEdns0-max_length protocol size flags (inl (p, s, f)) =
    (ap max_length p ∙ sym s, ap edns0_flags p ∙ sym f)
IsEdns0-max_length protocol size flags (inr (inl (inl p, s, f))) =
    (ap max_length p ∙ sym s, ap edns0_flags p ∙ sym f)
IsEdns0-max_length protocol size flags (inr (inl (inr p, s, f))) =
    (ap max_length p ∙ sym s, ap edns0_flags p ∙ sym f)
IsEdns0-max_length protocol size flags (inr (inr (n, m, o, s, f))) =
    let (a, b) =
      other_protocol protocol (test-false protocol "udp" n) (test-false protocol "dot" m)
        (test-false protocol "doh" o) in
    (a ∙ sym s, b ∙ sym f)

-- The addresses with a blank before each but the first.
abbrev pub spaced : List Bytes → Bytes
spaced [] = []
spaced (a ∷ addrs) = a ++ blanks addrs
  where
    blanks : List Bytes → Bytes
    blanks [] = []
    blanks (b ∷ bs) = b' ' ∷ b ++ blanks bs

pub words-spaced : (addrs : List Bytes) → words addrs ≡ spaced addrs
words-spaced [] = refl
words-spaced (a ∷ []) = sym (append-nil a)
words-spaced (a ∷ b ∷ addrs) = ap (λ l. a ++ b' ' ∷ l) (words-spaced (b ∷ addrs))
