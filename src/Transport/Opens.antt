-- ===== src/Transport/Opens.antt =====
-- Bounds on how many connections an action opens.
use dnscore.Prelude.{
  ◌≡◌, refl, ℕ, suc, ◌+◌, ◌≤◌, String, Bool, true, false, ◌∷◌, arith, if◌then◌else◌,
}
use dnscore.Errors.{Error}
use dnscore.Go.{Result, ok, err, panic}
use dnscore.Runtime.{Trace, Conn, dialed, tls_dialed, closed}
use dnscore.Runtime.Io.{Io, lift, call, emit, defer, after, continue, catch, handle, ◌>>=◌}
use dnscore.Runtime.Only.{Only}
use dnscore.Transport.Wire.{opened}
use dnscore.Transport.Balance.{keeps_conns, opened-keeps}

-- Whatever the history and the outcome, the action opens at most `n` connections.
pub record Opens {ℓ} {A : Type ℓ} (n : ℕ) (m : Io A) : Type ℓ where
  pub at : (tr : Trace) → opened (m tr).1 ≤ opened tr + n

Opens-0 {ℓ} :
    {A : Type ℓ} (m : Io A) → Only keeps_conns m → (tr : Trace) → opened (m tr).1 ≡ opened tr
Opens-0 m o tr = let x = o.at tr in rw x.extends ((opened-keeps x.added tr x.pass).0)

-- A dial, in each of the two ways.
pub Opens-dialed :
    (answer : Trace → Result Conn) (network address : String)
    → Opens 1 (call answer (dialed network address))
unfolding call
Opens-dialed answer network address = record { at = λ tr. one (answer tr) tr }
  where
    one : (r : Result Conn) (tr : Trace) → opened (dialed network address r ∷ tr) ≤ opened tr + 1
    one (ok c) tr = omega arith
    one (err e) tr = omega arith
    one panic tr = omega arith

pub Opens-tls_dialed :
    (answer : Trace → Result Conn) (network address : String)
    → Opens 1 (call answer (tls_dialed network address))
unfolding call
Opens-tls_dialed answer network address = record { at = λ tr. one (answer tr) tr }
  where
    one :
        (r : Result Conn) (tr : Trace) → opened (tls_dialed network address r ∷ tr) ≤ opened tr + 1
    one (ok c) tr = omega arith
    one (err e) tr = omega arith
    one panic tr = omega arith

module _ {ℓ} {A : Type ℓ} where
  pub Opens-Only : (n : ℕ) (m : Io A) → Only keeps_conns m → Opens n m
  Opens-Only n m o = record { at = λ tr. omega (arith, Opens-0 m o tr) }

  pub Opens-if :
      {n : ℕ} (b : Bool) (m k : Io A) → Opens n m → Opens n k → Opens n (if b then m else k)
  Opens-if true m k hm hk = hm
  Opens-if false m k hm hk = hk

  -- The closing that ends an action opens nothing.
  pub Opens-defer :
      (n : ℕ) (conn : Conn) (m : Io A) → Only keeps_conns m → Opens n (defer (emit (closed conn)) m)
  unfolding defer after emit
  Opens-defer n conn m o = record { at = λ tr. omega (arith, Opens-0 m o tr) }

module _ {ℓ κ} {A : Type ℓ} {B : Type κ} {n : ℕ} where
  opened-continue :
      (f : A → Io B) (r : Result A) (mid : Trace)
      → ((a : A) → Opens n (f a))
      → opened (continue f (r, mid)).1 ≤ opened mid + n
  unfolding continue
  opened-continue f (ok a) mid h = (h a).at mid
  opened-continue f (err e) mid h = omega arith
  opened-continue f panic mid h = omega arith

  pub Opens-after :
      (m : Io A) (f : A → Io B) → Only keeps_conns m → ((a : A) → Opens n (f a)) → Opens n (m >>= f)
  unfolding ◌>>=◌
  Opens-after m f o h = record {
    at = λ tr. omega (arith, Opens-0 m o tr, opened-continue f (m tr).0 (m tr).1 h);
  }

  pub Opens-lift :
      (r : Result A) (f : A → Io B) → ((a : A) → r ≡ ok a → Opens n (f a)) → Opens n (lift r >>= f)
  unfolding lift continue ◌>>=◌
  Opens-lift (ok a) f h = record { at = λ tr. (h a refl).at tr }
  Opens-lift (err e) f h = record { at = λ tr. omega arith }
  Opens-lift panic f h = record { at = λ tr. omega arith }

  opened-handle :
      (failed : Error → Io B) (done : A → Io B) (r : Result A) (mid : Trace)
      → ((e : Error) → Opens n (failed e))
      → ((a : A) → Opens n (done a))
      → opened (handle failed done (r, mid)).1 ≤ opened mid + n
  unfolding handle
  opened-handle failed done (ok a) mid hf hd = (hd a).at mid
  opened-handle failed done (err e) mid hf hd = (hf e).at mid
  opened-handle failed done panic mid hf hd = omega arith

  pub Opens-catch :
      (m : Io A) (failed : Error → Io B) (done : A → Io B)
      → Opens 1 m
      → ((e : Error) → Opens n (failed e))
      → ((a : A) → Opens n (done a))
      → Opens (suc n) (catch m failed done)
  unfolding catch
  Opens-catch m failed done hm hf hd = record {
    at = λ tr. omega (arith, hm.at tr, opened-handle failed done (m tr).0 (m tr).1 hf hd);
  }

-- One that opens, and then one that does not.
pub Opens-before {ℓ κ} :
    {A : Type ℓ} {B : Type κ} {n : ℕ} (m : Io A) (f : A → Io B)
    → Opens n m
    → ((a : A) → Opens 0 (f a))
    → Opens n (m >>= f)
unfolding ◌>>=◌
Opens-before m f hm h = record {
  at = λ tr. omega (arith, hm.at tr, opened-continue f (m tr).0 (m tr).1 h);
}
