-- ===== src/Transport/Balance.antt =====
-- Actions that close every connection that they open.
use dnscore.Prelude.{
  ◌≡◌, refl, ℕ, ◌+◌, String, Bool, true, false, [], ◌∷◌, ◌++◌, All, arith, ◌==◌, if◌then◌else◌,
}
use dnscore.Errors.{Error}
use dnscore.Go.{Result, ok, err, panic}
use dnscore.Runtime.{Event, Trace, Conn, dialed, tls_dialed, closed}
use dnscore.Runtime.Io.{Io, lift, call, emit, defer, after, continue, catch, handle, ◌>>=◌}
use dnscore.Runtime.Only.{Only}
use dnscore.Transport.Logs.{LogsPass}
use dnscore.Transport.Wire.{opened, closings, openings_of, closings_of}

-- Events that neither open nor close a connection.
abbrev pub keeps_conns : Event → Bool
keeps_conns (dialed _ _ _) = false
keeps_conns (tls_dialed _ _ _) = false
keeps_conns (closed _) = false
keeps_conns _ = true

pub opened-keeps :
    (es tr : Trace)
    → All (λ e. keeps_conns e ≡ true) es
    → (opened (es ++ tr) ≡ opened tr) × (closings (es ++ tr) ≡ closings tr)
opened-keeps [] tr h = (refl, refl)
opened-keeps (dialed _ _ _ ∷ es) tr h = absurd (cc h.0)
opened-keeps (tls_dialed _ _ _ ∷ es) tr h = absurd (cc h.0)
opened-keeps (closed _ ∷ es) tr h = absurd (cc h.0)
opened-keeps (_ ∷ es) tr h = opened-keeps es tr h.1

pub openings_of-keeps :
    (conn : Conn) (es tr : Trace)
    → All (λ e. keeps_conns e ≡ true) es
    → (openings_of conn (es ++ tr) ≡ openings_of conn tr)
      × (closings_of conn (es ++ tr) ≡ closings_of conn tr)
openings_of-keeps conn [] tr h = (refl, refl)
openings_of-keeps conn (dialed _ _ _ ∷ es) tr h = absurd (cc h.0)
openings_of-keeps conn (tls_dialed _ _ _ ∷ es) tr h = absurd (cc h.0)
openings_of-keeps conn (closed _ ∷ es) tr h = absurd (cc h.0)
openings_of-keeps conn (_ ∷ es) tr h = openings_of-keeps conn es tr h.1

pub logs_keep_conns : LogsPass keeps_conns
logs_keep_conns = record { at_clock = λ now. refl; at_log = λ r. refl }

-- This connection was closed as often as it was opened from one history to the other.
abbrev pub EvenFrom : Conn → Trace → Trace → Type 0
EvenFrom conn before after =
    openings_of conn after + closings_of conn before
    ≡ closings_of conn after + openings_of conn before

-- Whatever the history and the outcome, an error or a panic, the action closes each connection as
-- often as it opens it.
pub record Balanced {ℓ} {A : Type ℓ} (m : Io A) : Type ℓ where
  pub at : (conn : Conn) (tr : Trace) → EvenFrom conn tr (m tr).1

module _ {ℓ} {A : Type ℓ} where
  pub Balanced-Only : (m : Io A) → Only keeps_conns m → Balanced m
  Balanced-Only m o = record {
    at = λ conn tr.
        let x = o.at tr in rw x.extends (omega (arith, openings_of-keeps conn x.added tr x.pass));
  }

  pub Balanced-if :
      (b : Bool) (m n : Io A) → Balanced m → Balanced n → Balanced (if b then m else n)
  Balanced-if true m n hm hn = hm
  Balanced-if false m n hm hn = hn

module _ {ℓ κ} {A : Type ℓ} {B : Type κ} where
  EvenFrom-handle :
      (failed : Error → Io B) (done : A → Io B) (conn : Conn) (r : Result A) (tr mid : Trace)
      → EvenFrom conn tr mid
      → ((e : Error) → Balanced (failed e))
      → ((a : A) → Balanced (done a))
      → EvenFrom conn tr (handle failed done (r, mid)).1
  unfolding handle
  EvenFrom-handle failed done conn (ok a) tr mid e hf hd = omega (arith, e, (hd a).at conn mid)
  EvenFrom-handle failed done conn (err x) tr mid e hf hd = omega (arith, e, (hf x).at conn mid)
  EvenFrom-handle failed done conn panic tr mid e hf hd = e

  pub Balanced-catch :
      (m : Io A) (failed : Error → Io B) (done : A → Io B)
      → Balanced m
      → ((e : Error) → Balanced (failed e))
      → ((a : A) → Balanced (done a))
      → Balanced (catch m failed done)
  unfolding catch
  Balanced-catch m failed done hm hf hd = record {
    at = λ conn tr. EvenFrom-handle failed done conn (m tr).0 tr (m tr).1 (hm.at conn tr) hf hd;
  }

  EvenFrom-continue :
      (f : A → Io B) (conn : Conn) (r : Result A) (tr mid : Trace)
      → EvenFrom conn tr mid
      → ((a : A) → Balanced (f a))
      → EvenFrom conn tr (continue f (r, mid)).1
  unfolding continue
  EvenFrom-continue f conn (ok a) tr mid e hf = omega (arith, e, (hf a).at conn mid)
  EvenFrom-continue f conn (err x) tr mid e hf = e
  EvenFrom-continue f conn panic tr mid e hf = e

  pub Balanced-bind :
      (m : Io A) (f : A → Io B) → Balanced m → ((a : A) → Balanced (f a)) → Balanced (m >>= f)
  unfolding ◌>>=◌
  Balanced-bind m f hm hf = record {
    at = λ conn tr. EvenFrom-continue f conn (m tr).0 tr (m tr).1 (hm.at conn tr) hf;
  }

  pub Balanced-lift :
      (r : Result A) (f : A → Io B)
      → ((a : A) → r ≡ ok a → Balanced (f a))
      → Balanced (lift r >>= f)
  unfolding lift continue ◌>>=◌
  Balanced-lift (ok a) f h = record { at = λ conn tr. (h a refl).at conn tr }
  Balanced-lift (err e) f h = record { at = λ conn tr. omega arith }
  Balanced-lift panic f h = record { at = λ conn tr. omega arith }

-- How often a dial has opened this connection.
abbrev pub count : Conn → Result Conn → ℕ
count conn (ok c) = if c == conn then 1 else 0
count conn _ = 0

-- The event of a dial opens the connection that it gives, if it gives one, and closes none.
abbrev pub IsDial : (Result Conn → Event) → Type 0
IsDial event =
    (conn : Conn) (r : Result Conn) (tr : Trace)
    → (closings_of conn (event r ∷ tr) ≡ closings_of conn tr)
      × (openings_of conn (event r ∷ tr) ≡ openings_of conn tr + count conn r)

pub dialed-IsDial : (network address : String) → IsDial (dialed network address)
dialed-IsDial network address conn (ok c) tr = (refl, ground arith)
dialed-IsDial network address conn (err e) tr = (refl, omega arith)
dialed-IsDial network address conn panic tr = (refl, omega arith)

pub tls_dialed-IsDial : (network address : String) → IsDial (tls_dialed network address)
tls_dialed-IsDial network address conn (ok c) tr = (refl, ground arith)
tls_dialed-IsDial network address conn (err e) tr = (refl, omega arith)
tls_dialed-IsDial network address conn panic tr = (refl, omega arith)

-- Whatever the outcome, the action opens the connection that it returns, and no other, and closes
-- none.
pub record Dials (m : Io Conn) : Type 0 where
  pub at :
      (conn : Conn) (tr : Trace)
      → (closings_of conn (m tr).1 ≡ closings_of conn tr)
        × (openings_of conn (m tr).1 ≡ openings_of conn tr + count conn (m tr).0)

pub Dials-call :
    (answer : Trace → Result Conn) (event : Result Conn → Event)
    → IsDial event
    → Dials (call answer event)
unfolding call
Dials-call answer event h = record { at = λ conn tr. h conn (answer tr) tr }

module _ {ℓ} {A : Type ℓ} where
  at-continue :
      (f : A → Io Conn) (conn : Conn) (r : Result A) (mid : Trace)
      → ((a : A) → Dials (f a))
      → (closings_of conn (continue f (r, mid)).1 ≡ closings_of conn mid)
        × (openings_of conn (continue f (r, mid)).1
            ≡ openings_of conn mid + count conn (continue f (r, mid)).0)
  unfolding continue
  at-continue f conn (ok a) mid h = (h a).at conn mid
  at-continue f conn (err e) mid h = (refl, omega arith)
  at-continue f conn panic mid h = (refl, omega arith)

  pub Dials-bind :
      (m : Io A) (f : A → Io Conn) → Only keeps_conns m → ((a : A) → Dials (f a)) → Dials (m >>= f)
  unfolding ◌>>=◌
  Dials-bind m f o h = record {
    at = λ conn tr.
        let x = o.at tr in
        let kept = openings_of-keeps conn x.added tr x.pass in
        let same : (closings_of conn (m tr).1 ≡ closings_of conn tr)
            × (openings_of conn (m tr).1 ≡ openings_of conn tr) =
          rw x.extends (kept.1, kept.0) in
        let dialled = at-continue f conn (m tr).0 (m tr).1 h in
        (omega (arith, same, dialled), omega (arith, same, dialled));
  }

-- A dial, and then an action that closes the connection in the end.
module _ {ℓ} {B : Type ℓ} (body : Conn → Io B)
    (keeps : (c : Conn) → Only keeps_conns (body c)) where
  EvenFrom-continue_dial :
      (conn : Conn) (r : Result Conn) (tr mid : Trace)
      → (closings_of conn mid ≡ closings_of conn tr)
        × (openings_of conn mid ≡ openings_of conn tr + count conn r)
      → EvenFrom conn tr (continue (λ c. defer (emit (closed c)) (body c)) (r, mid)).1
  unfolding continue defer after emit
  EvenFrom-continue_dial conn (ok c) tr mid h =
      let x = (keeps c).at mid in
      rw x.extends (ground (arith, openings_of-keeps conn x.added mid x.pass, h))
  EvenFrom-continue_dial conn (err e) tr mid h = omega (arith, h)
  EvenFrom-continue_dial conn panic tr mid h = omega (arith, h)

  pub Balanced-dial :
      (m : Io Conn) → Dials m → Balanced (m >>= λ c. defer (emit (closed c)) (body c))
  unfolding ◌>>=◌
  Balanced-dial m h = record {
    at = λ conn tr. EvenFrom-continue_dial conn (m tr).0 tr (m tr).1 (h.at conn tr);
  }
