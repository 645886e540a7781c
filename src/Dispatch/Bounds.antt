-- ===== src/Dispatch/Bounds.antt =====
-- How many bytes a response can be parsed from.
use dnscore.Prelude.{
  ◌≡◌, Option, inl, inr, ℕ, ◌+◌, ◌*◌, ◌<◌, ◌≤◌, ◌^◌, Bytes, none, [], ◌∷◌, All, length,
  length-take-le, arith,
}
use mathlib.Core.Path.{subst}
use dnscore.Go.{Result, ok}
use dnscore.Dns.{Header, Msg, Library}
use dnscore.ServerAddr.{ServerAddr}
use dnscore.Runtime.{Env, Trace, Context, Conn, Body}
use dnscore.Runtime.Invert.{>>=-eq-ok}
use dnscore.Transport.{Transport, hook_or}
use dnscore.Frame.{frame_length}
use dnscore.Udp.{edns0_max_response_size, query_udp}
use dnscore.Udp.Size.{edns0_max_response_size_bounds}
use dnscore.Udp.Closing.{query_udp-Exchanged}
use dnscore.Https.{read_limited, body_end, query_https}
use dnscore.Https.Exchange.{query_https-Exchanged}
use dnscore.Stream.{query_stream, query_tcp, query_tls}
use dnscore.Stream.RoundTrip.{query_stream-Exchanged}
use dnscore.Dispatch.{query}
use dnscore.Dispatch.Cases.{query_ok}

-- What the sources of bytes document: `Read` fills at most the buffer, `ReadFull` all of it, with
-- bytes, and the size in an OPT record has 16 bits.
pub record IsSound (L : Library) (E : Env) : Type 0 where
  pub read_fits :
      (tr : Trace) (conn : Conn) (n : ℕ) {got : Bytes} → E.read tr conn n ≡ ok got → length got ≤ n
  pub read_full_fits :
      (tr : Trace) (conn : Conn) (n : ℕ) {got : Bytes}
      → E.read_full tr conn n ≡ ok got
      → (length got ≡ n) × All (λ b. b < 256) got
  pub size_fits : (h : Header) → L.udp_size h < 2 ^ 16

abbrev ReadAll : Type 0
ReadAll = Trace → Context → Body → ℕ → Result Bytes

-- The response is what at most 65535 bytes parse to.
abbrev pub IsBounded : Library → Msg → Type 0
IsBounded L resp = (raw_resp : Bytes) × (length raw_resp < 2 ^ 16) × (L.unpack raw_resp ≡ ok resp)

frame_length_bounds :
    (header : Bytes) {n : ℕ} → All (λ b. b < 256) header → frame_length header ≡ ok n → n < 2 ^ 16
unfolding frame_length
frame_length_bounds [] h e = absurd (cc e)
frame_length_bounds (b ∷ []) h e = absurd (cc e)
frame_length_bounds (b ∷ c ∷ bs) {n} h e =
    let same : b * 256 + c ≡ n = cc e in omega (arith, h.0, h.1.0)

read_limited_bounds :
    (body : Body) (n : ℕ) {got : Bytes} → read_limited body n ≡ ok got → length got ≤ n
unfolding read_limited body_end
read_limited_bounds body n h = ground (arith, length-take-le n body.content)

module _ (L : Library) (E : Env) (sound : IsSound L E) where
  query_stream-IsBounded :
      (t : Transport) (ctx : Context) (addr : ServerAddr) (packed : Result Bytes) (conn : Conn)
      (tr tr' : Trace) {resp : Msg}
      → query_stream L E t ctx addr packed conn tr ≡ (ok resp, tr')
      → IsBounded L resp
  query_stream-IsBounded t ctx addr packed conn tr tr' h =
      let x = query_stream-Exchanged L E t ctx addr packed conn tr tr' h in
      let bytes = (sound.read_full_fits (x.header_read).0 conn 2 (x.header_read).1).1 in
      let whole =
        (sound.read_full_fits (x.read_as_announced).0 conn x.size (x.read_as_announced).1).0 in
      let small = frame_length_bounds x.header bytes x.announced in
      (x.raw_resp, omega (arith, whole, small), x.parsed)

  module _ (t : Transport) (ctx : Context) (addr : ServerAddr) (q : Msg) (tr tr' : Trace)
      {resp : Msg} where
    query_udp-IsBounded : query_udp L E t ctx addr q tr ≡ (ok resp, tr') → IsBounded L resp
    query_udp-IsBounded h =
        let x = query_udp-Exchanged L E t ctx addr q tr tr' h in
        (
          x.raw_resp,
          omega (
            arith,
            sound.read_fits (x.read_into_buffer).0 x.conn _ (x.read_into_buffer).1,
            edns0_max_response_size_bounds L sound.size_fits q,
          ),
          x.parsed,
        )

    query_tcp-IsBounded : query_tcp L E t ctx addr q tr ≡ (ok resp, tr') → IsBounded L resp
    unfolding query_tcp
    query_tcp-IsBounded h =
        let a = >>=-eq-ok _ _ tr h in
        let b = >>=-eq-ok _ _ a.middle a.rest in
        query_stream-IsBounded t ctx addr (L.pack q) b.value b.middle tr' b.rest

    query_tls-IsBounded : query_tls L E t ctx addr q tr ≡ (ok resp, tr') → IsBounded L resp
    unfolding query_tls
    query_tls-IsBounded h =
        let a = >>=-eq-ok _ _ tr h in
        let b = >>=-eq-ok _ _ a.middle a.rest in
        query_stream-IsBounded t ctx addr (L.pack q) b.value b.middle tr' b.rest

    query_https-IsBounded :
        t.read_all_context ≡ none
        → query_https L E t ctx addr q tr ≡ (ok resp, tr')
        → IsBounded L resp
    query_https-IsBounded default_read h =
        let x = query_https-Exchanged L E t ctx addr q tr tr' h in
        let n = edns0_max_response_size L q in
        let limited : read_limited x.http_resp.body n ≡ ok x.raw_resp =
          subst
            (λ (o : Option ReadAll).
              hook_or o (λ _ _. read_limited) (x.read_up_to).0 ctx x.http_resp.body n
              ≡ ok x.raw_resp)
            default_read (x.read_up_to).1 in
        (
          x.raw_resp,
          omega (
            arith,
            read_limited_bounds x.http_resp.body n limited,
            edns0_max_response_size_bounds L sound.size_fits q,
          ),
          x.parsed,
        )

-- Let the world fill no more of a buffer than there is and let no hook read the bodies of HTTP
-- responses. Then a response that `Query` returns, over any protocol, is what at most 65535 bytes
-- parse to, however many the server sends.
pub query-IsBounded :
    (L : Library) (E : Env) (t : Transport) (ctx : Context) (addr : ServerAddr) (q : Msg)
    (tr tr' : Trace) {resp : Msg}
    → IsSound L E
    → t.read_all_context ≡ none
    → query L E t ctx addr q tr ≡ (ok resp, tr')
    → IsBounded L resp
query-IsBounded L E t ctx addr q tr tr' sound default_read h =
    elim (query_ok L E t ctx addr q tr tr' h) [
      | inl udp ↦ query_udp-IsBounded L E sound t ctx addr q tr tr' udp
      | inr (inl tcp) ↦ query_tcp-IsBounded L E sound t ctx addr q tr tr' tcp
      | inr (inr (inl tls)) ↦ query_tls-IsBounded L E sound t ctx addr q tr tr' tls
      | inr (inr (inr https)) ↦
          query_https-IsBounded L E sound t ctx addr q tr tr' default_read https
    ]
