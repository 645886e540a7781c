-- ===== src/ResolverConfig/Mutex/Counts.antt =====
-- How many goroutines are inside the mutex.
use dnscore.Prelude.{◌≡◌, refl, ℕ, ◌+◌, Bool, true, false, List, [], ◌∷◌, ◌++◌, All, map, arith}
use dnscore.ResolverConfig.{ResolverConfigServer}
use dnscore.ResolverConfig.Mutex.{
  Call, Worker, is_write, calling, inside, appending, unlocking, returned,
}

abbrev pub flag : Bool → ℕ
flag true = 1
flag false = 0

abbrev pub not_flag : Bool → ℕ
not_flag true = 0
not_flag false = 1

-- This goroutine is inside as a writer, or as a reader.
abbrev pub writer : Worker → ℕ
writer (calling _) = 0
writer (inside c) = flag (is_write c)
writer (appending _ _ _) = 1
writer (unlocking c _) = flag (is_write c)
writer (returned _ _) = 0

abbrev pub reader : Worker → ℕ
reader (calling _) = 0
reader (inside c) = not_flag (is_write c)
reader (appending _ _ _) = 0
reader (unlocking c _) = not_flag (is_write c)
reader (returned _ _) = 0

abbrev pub total : (Worker → ℕ) → List Worker → ℕ
total f [] = 0
total f (w ∷ ws) = f w + total f ws

pub total-middle :
    (f : Worker → ℕ) (before : List Worker) (w : Worker) (after : List Worker)
    → total f (before ++ w ∷ after) ≡ total f before + f w + total f after
total-middle f [] w after = omega arith
total-middle f (v ∷ before) w after = omega (arith, total-middle f before w after)

-- One goroutine after a step of it.
pub total-replace :
    (f : Worker → ℕ) (before : List Worker) (w w' : Worker) (after : List Worker)
    → total f (before ++ w' ∷ after) + f w ≡ total f (before ++ w ∷ after) + f w'
total-replace f before w w' after =
    omega (arith, total-middle f before w after, total-middle f before w' after)

-- The list that it has read is still the list.
abbrev pub IsCurrent : List ResolverConfigServer → Worker → Type 0
IsCurrent list (calling _) = Unit
IsCurrent list (inside _) = Unit
IsCurrent list (appending _ _ read) = read ≡ list
IsCurrent list (unlocking _ _) = Unit
IsCurrent list (returned _ _) = Unit

-- Where no writer is inside, no list has been read.
pub no_writer-IsCurrent :
    (list : List ResolverConfigServer) (ws : List Worker)
    → total writer ws ≡ 0
    → All (IsCurrent list) ws
no_writer-IsCurrent list [] h = tt
no_writer-IsCurrent list (calling _ ∷ ws) h = (tt, no_writer-IsCurrent list ws (omega (arith, h)))
no_writer-IsCurrent list (inside _ ∷ ws) h = (tt, no_writer-IsCurrent list ws (omega (arith, h)))
no_writer-IsCurrent list (appending _ _ _ ∷ ws) h = absurd (omega (arith, h))
no_writer-IsCurrent list (unlocking _ _ ∷ ws) h =
    (tt, no_writer-IsCurrent list ws (omega (arith, h)))
no_writer-IsCurrent list (returned _ _ ∷ ws) h =
    (tt, no_writer-IsCurrent list ws (omega (arith, h)))

pub All-split {ℓ κ} :
    {A : Type ℓ} (P : A → Type κ) (before : List A) (x : A) (after : List A)
    → All P (before ++ x ∷ after)
    → All P before × P x × All P after
All-split P [] x after h = (tt, h.0, h.1)
All-split P (y ∷ before) x after h =
    let rest = All-split P before x after h.1 in ((h.0, rest.0), rest.1, rest.2)

pub total-calling :
    (f : Worker → ℕ) (calls : List Call)
    → ((c : Call) → f (calling c) ≡ 0)
    → total f (map calling calls) ≡ 0
total-calling f [] h = refl
total-calling f (c ∷ calls) h = omega (arith, h c, total-calling f calls h)
