-- ===== src/TestServer/Lifecycle.antt =====
-- What starting a test server does in the caller and in the goroutine, and closing it.
use mathlib.Core.Path.{subst}
use dnscore.Prelude.{
  ◌≡◌, refl, ap, ◌∙◌, inl, inr, ℕ, String, Bool, true, false, Option, some, [], ◌∷◌, ◌++◌, ◌<>◌,
  Option-cases,
}
use dnscore.Errors.{Error}
use dnscore.Go.{Result, ok, err, panic}
use dnscore.Runtime.{Trace, Conn, closed}
use dnscore.Runtime.Io.{pure, emit, ◌>>=◌}
use dnscore.Transport.{hook_or}
use dnscore.TestServer.{
  Stdlib, Server, assert_not_started, must, assert_appended, start_tcp, start_udp, start_tls,
  start_https, close_all, close,
}

-- The four methods that start a server.
pub data Method : Type 0 where
  over_tcp : Method
  over_udp : Method
  over_tls : Method
  over_https : Method

abbrev pub start_by : Method → Stdlib → Server → Result Server
start_by over_tcp = start_tcp
start_by over_udp = start_udp
start_by over_tls = start_tls
start_by over_https = start_https

module _ (S : Stdlib) (s : Server) where
  -- The key pair was read, listening with it gave the listener, and the pool took the certificate.
  abbrev pub ListensTls : Conn → String → Type 0
  ListensTls listener addr =
      (cert : ℕ) × (S.x509_key_pair ≡ ok cert)
      × (hook_or s.listen_tls S.listen_tls "tcp" "127.0.0.1:0" cert ≡ ok (listener, addr))
      × (S.append_certs_from_pem ≡ true)

  -- The hook of the server, or else the library, gave the method's listener and its address.
  abbrev pub Listens : Method → Conn → String → Type 0
  Listens over_tcp listener addr =
      hook_or s.listen S.listen "tcp" "127.0.0.1:0" ≡ ok (listener, addr)
  Listens over_udp listener addr =
      hook_or s.listen_packet S.listen_packet "udp" "127.0.0.1:0" ≡ ok (listener, addr)
  Listens over_tls listener addr = ListensTls listener addr
  Listens over_https listener addr = ListensTls listener addr

  -- The pool and the URL that the method leaves.
  abbrev pub Published : Method → String → Server → Type 0
  Published over_tcp addr s' = (s'.root_cas ≡ s.root_cas) × (s'.url ≡ s.url)
  Published over_udp addr s' = (s'.root_cas ≡ s.root_cas) × (s'.url ≡ s.url)
  Published over_tls addr s' = (s'.root_cas ≡ some S.cert_pool) × (s'.url ≡ s.url)
  Published over_https addr s' =
      (s'.root_cas ≡ some S.cert_pool) × (s'.url ≡ "https://" <> addr <> "/dns-query")

  -- The server has started, at the address of a listener of the method, which it holds also.
  HasStarted : Method → Server → Type 0
  HasStarted m s' =
      (listener : Conn) × Listens m listener s'.addr
      × Published m s'.addr s'
      × (s'.started ≡ true)
      × (s'.ioclosers ≡ s.ioclosers ++ listener ∷ [])

abbrev ok_or : Server → Result Server → Server
ok_or d (ok s) = s
ok_or d _ = d

must_ok :
    {A : Type 0} (r : Result A) (rest : A → Result Server) {s' : Server}
    → must r rest ≡ ok s'
    → (a : A) × (r ≡ ok a) × (rest a ≡ ok s')
unfolding must
must_ok (ok a) rest h = (a, refl, h)
must_ok (err e) rest h = absurd (cc h)
must_ok panic rest h = absurd (cc h)

assert_appended_ok :
    (appended : Bool) (s : Server) {s' : Server}
    → assert_appended appended s ≡ ok s'
    → (appended ≡ true) × (s ≡ s')
unfolding assert_appended
assert_appended_ok true s h = (refl, ap (ok_or s) h)
assert_appended_ok false s h = absurd (cc h)

start_by-HasStarted :
    (S : Stdlib) (s : Server) (m : Method) {s' : Server}
    → start_by m S s ≡ ok s'
    → HasStarted S s m s'
unfolding HasStarted start_tcp start_udp start_tls start_https
start_by-HasStarted S s over_tcp h =
    let (l, listened, e) = must_ok _ _ h in
    subst (HasStarted S s over_tcp) (ap (ok_or s) e) (l.0, listened, (refl, refl), refl, refl)
start_by-HasStarted S s over_udp h =
    let (l, listened, e) = must_ok _ _ h in
    subst (HasStarted S s over_udp) (ap (ok_or s) e) (l.0, listened, (refl, refl), refl, refl)
start_by-HasStarted S s over_tls h =
    let (cert, key, e) = must_ok _ _ h in
    let (l, listened, f) = must_ok _ _ e in
    let (appended, same) = assert_appended_ok _ _ f in
    subst (HasStarted S s over_tls) same
      (l.0, (cert, key, listened, appended), (refl, refl), refl, refl)
start_by-HasStarted S s over_https h =
    let (cert, key, e) = must_ok _ _ h in
    let (l, listened, f) = must_ok _ _ e in
    let (appended, same) = assert_appended_ok _ _ f in
    subst (HasStarted S s over_https) same
      (l.0, (cert, key, listened, appended), (refl, refl), refl, refl)

not_started_again : (s : Server) → s.started ≡ true → assert_not_started s ≡ panic
unfolding assert_not_started
not_started_again s t = rw t refl

close_one :
    (close_error : Conn → Option Error) (s : Server) (listener : Conn) (tr : Trace)
    → s.ioclosers ≡ listener ∷ []
    → close close_error s tr ≡ (ok (close_error listener), closed listener ∷ tr)
unfolding close close_all pure emit ◌>>=◌
close_one close_error s listener tr one =
    rw one
      (elim (Option-cases (close_error listener)) [ inl n ↦ rw n refl | inr (e, p) ↦ rw p refl ])

-- When the goroutine of one of the four methods becomes ready, on a server without listeners, then:
-- the server's hook or the library gave it a listener of that method (for TLS and HTTPS after the
-- key pair was read, and the pool took the certificate); the server has the listener's address, the
-- pool and URL of the method, and just this listener; the assertion that every method begins with
-- now panics; and `Close` closes just this listener and gives its error.
pub start_by-close :
    (S : Stdlib) (m : Method) (close_error : Conn → Option Error) (s s' : Server) (tr : Trace)
    → s.ioclosers ≡ []
    → start_by m S s ≡ ok s'
    → (listener : Conn) × Listens S s m listener s'.addr
      × Published S s m s'.addr s'
      × (s'.ioclosers ≡ listener ∷ [])
      × (assert_not_started s' ≡ panic)
      × (close close_error s' tr ≡ (ok (close_error listener), closed listener ∷ tr))
unfolding HasStarted
start_by-close S m close_error s s' tr fresh h =
    let (listener, listened, published, started, held) = start_by-HasStarted S s m h in
    let one : s'.ioclosers ≡ listener ∷ [] = held ∙ ap (λ cs. cs ++ listener ∷ []) fresh in
    (
      listener,
      listened,
      published,
      one,
      not_started_again s' started,
      close_one close_error s' listener tr one,
    )
