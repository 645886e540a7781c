-- ===== src/Query/Padding.antt =====
-- `QueryOptionEDNS0`: the OPT record that it adds, and the block length of the padded query.
use dnscore.Prelude.{
  ℕ, ◌+◌, ◌%◌, ◌<◌, ◌≡◌, refl, true, false, some, List, [], ◌∷◌, ◌++◌, length, length-replicate,
  replicate, arith,
}
use dnscore.Go.{ok}
use dnscore.Dns.{Edns0, padding, Rr, Header, Msg, Library, IsLawful, around, opt_count}
use dnscore.Query.{
  append_option, add_option, pad_length, pad_query, query_option_edns0, has_flag, edns0_flag_do,
  edns0_flag_block_length_padding,
}

append_option-around :
    (xs : List Rr) (h : Header) (options : List Edns0) (ys : List Rr) (o : Edns0)
    → append_option (around xs h options ys) (length xs) o
      ≡ some (around xs h (options ++ o ∷ []) ys)
unfolding append_option
append_option-around [] h options ys o = refl
append_option-around (x ∷ xs) h options ys o = rw (append_option-around xs h options ys o)

pad_length_lem : (len : ℕ) → ((len + 4 + pad_length len) % 128 ≡ 0) × (pad_length len < 128)
unfolding pad_length
pad_length_lem len = omega arith

-- The query with the OPT record that the option adds, with these options in it.
abbrev pub with_opt : Library → Msg → ℕ → ℕ → List Edns0 → Msg
with_opt L q size flags options = record q {
  extra = around q.extra (L.opt_header size (has_flag flags edns0_flag_do)) options [];
}

module _ (L : Library) (law : IsLawful L) (q : Msg) (size flags : ℕ) where
  -- Without the padding flag the option only adds the OPT record.
  pub query_option_edns0_plain :
      has_flag flags edns0_flag_block_length_padding ≡ false
      → query_option_edns0 L size flags q ≡ ok (with_opt L q size flags [])
  unfolding query_option_edns0
  query_option_edns0_plain off =
      rw off (rw (law.set_edns0_lem q size (has_flag flags edns0_flag_do)))

  add_option-with_opt :
      (o : Edns0)
      → opt_count q.extra ≡ 0
      → add_option L (with_opt L q size flags []) o ≡ ok (with_opt L q size flags (o ∷ []))
  unfolding add_option
  add_option-with_opt o fresh =
      let h = L.opt_header size (has_flag flags edns0_flag_do) in
      rw (law.is_edns0_lem q q.extra h [] [] fresh refl, add_option)
        (rw (append_option-around q.extra h [] [] o))

  -- With the padding flag, on a query that has no OPT record yet, `QueryOptionEDNS0` adds one with
  -- a padding option of fewer than 128 zero bytes and changes nothing else, and the length of the
  -- query is then a multiple of 128.
  pub query_option_edns0_padded :
      has_flag flags edns0_flag_block_length_padding ≡ true
      → opt_count q.extra ≡ 0
      → (n : ℕ) × (n < 128)
        × (query_option_edns0 L size flags q
            ≡ ok (with_opt L q size flags (padding (replicate n 0) ∷ [])))
        × (L.len (with_opt L q size flags (padding (replicate n 0) ∷ [])) % 128 ≡ 0)
  unfolding query_option_edns0
  query_option_edns0_padded on fresh = (
    n,
    (pad_length_lem _).1,
    rw on (
        rw (law.set_edns0_lem q size (has_flag flags edns0_flag_do))
          (unfold pad_query in add_option-with_opt _ fresh)),
    omega (
      arith,
      law.len-padding q q.extra h [] [] (replicate n 0),
      length-replicate {A = ℕ} n 0,
      pad_length_lem (L.len (with_opt L q size flags [])),
    ),
  )
    where
      h : Header
      h = L.opt_header size (has_flag flags edns0_flag_do)

      n : ℕ
      n = pad_length (L.len (with_opt L q size flags []))
