-- ===== src/Udp/Size.antt =====
-- `edns0MaxResponseSize`: how much of a response is read, over UDP and over HTTPS.
use dnscore.Prelude.{
  ℕ, ◌<◌, ◌^◌, ◌≡◌, refl, ◌∙◌, List, [], ◌∷◌, arith, ◌==◌, if◌then◌else◌, Bool-cases, inl, inr,
  replicate,
}
use dnscore.Go.{ok}
use dnscore.Dns.{
  Edns0, padding, Header, Rr, a_rr, opt_rr, Msg, Library, IsLawful, around, opt_count,
}
use dnscore.Query.{query_option_edns0, has_flag, edns0_flag_do, edns0_flag_block_length_padding}
use dnscore.Query.Padding.{with_opt, query_option_edns0_plain, query_option_edns0_padded}
use dnscore.Udp.{opt_size, edns0_max_response_size}

module _ (L : Library) where
  opt_size-around :
      (xs : List Rr) (h : Header) (options : List Edns0) (ys : List Rr)
      → opt_count xs ≡ 0
      → opt_size L (around xs h options ys) ≡ L.udp_size h
  unfolding opt_size
  opt_size-around [] h options ys e = refl
  opt_size-around (opt_rr _ _ ∷ xs) h options ys e = absurd (omega arith)
  opt_size-around (a_rr _ _ ∷ xs) h options ys e = opt_size-around xs h options ys e
  opt_size-around (rr ∷ xs) h options ys e = opt_size-around xs h options ys e

  opt_size-zero : (xs : List Rr) → opt_count xs ≡ 0 → opt_size L xs ≡ 0
  unfolding opt_size
  opt_size-zero [] e = refl
  opt_size-zero (opt_rr _ _ ∷ xs) e = absurd (omega arith)
  opt_size-zero (rr ∷ xs) e = opt_size-zero xs e

  -- A query without an OPT record accepts 512 bytes.
  pub edns0_max_response_size_default :
      (q : Msg) → opt_count q.extra ≡ 0 → edns0_max_response_size L q ≡ 512
  unfolding edns0_max_response_size
  edns0_max_response_size_default q fresh = rw (opt_size-zero q.extra fresh)

  with_opt_size :
      IsLawful L
      → (q : Msg) (size flags : ℕ) (options : List Edns0) → opt_count q.extra ≡ 0
      → size < 2 ^ 16
      → edns0_max_response_size L (with_opt L q size flags options)
        ≡ (if size == 0 then 512 else size)
  unfolding edns0_max_response_size
  with_opt_size law q size flags options fresh small =
      let e =
        opt_size-around q.extra (L.opt_header size (has_flag flags edns0_flag_do)) options [] fresh
        ∙ law.udp_size-opt_header size (has_flag flags edns0_flag_do) small in
      rw e

-- The size that `QueryOptionEDNS0` puts into a query without an OPT record is the size that the
-- transport then reads at most, whatever the flags; zero stands for 512 bytes.
pub edns0_max_response_size-query_option_edns0 :
    (L : Library) (q q' : Msg) (size flags : ℕ)
    → IsLawful L
    → opt_count q.extra ≡ 0
    → size < 2 ^ 16
    → query_option_edns0 L size flags q ≡ ok q'
    → edns0_max_response_size L q' ≡ (if size == 0 then 512 else size)
edns0_max_response_size-query_option_edns0 L q q' size flags law fresh small h =
    elim (Bool-cases (has_flag flags edns0_flag_block_length_padding)) [
      | inl on ↦
          let (n, _, e, _) = query_option_edns0_padded L law q size flags on fresh in
          let same : with_opt L q size flags (padding (replicate n 0) ∷ []) ≡ q' = cc (e, h) in
          rw (← same) (with_opt_size L law q size flags (padding (replicate n 0) ∷ []) fresh small)
      | inr off ↦
          let e = query_option_edns0_plain L law q size flags off in
          let same : with_opt L q size flags [] ≡ q' = cc (e, h) in
          rw (← same) (with_opt_size L law q size flags [] fresh small)
    ]

module _ (L : Library) (size_fits : (h : Header) → L.udp_size h < 2 ^ 16) where
  opt_size_bounds : (rrs : List Rr) → opt_size L rrs < 2 ^ 16
  unfolding opt_size
  opt_size_bounds [] = omega arith
  opt_size_bounds (opt_rr h _ ∷ rrs) = size_fits h
  opt_size_bounds (_ ∷ rrs) = opt_size_bounds rrs

  pub edns0_max_response_size_bounds :
      (q : Msg) → (0 < edns0_max_response_size L q) × (edns0_max_response_size L q < 2 ^ 16)
  unfolding edns0_max_response_size
  edns0_max_response_size_bounds q = ground (arith, opt_size_bounds q.extra)
