-- ===== src/Go.antt =====
-- Go's results: a value, an error, or a panic (a nil pointer, an index out of range, a failed
-- assertion).
use dnscore.Prelude.{◌≡◌, refl, ◌⊎◌, inl, inr}
use dnscore.Errors.{Error}

pub data Result {ℓ} (A : Type ℓ) : Type ℓ where
  ok : A → Result A
  err : Error → Result A
  panic : Result A

-- `if err != nil { return err }`, and on with the value: a panic ends the function too.
abbrev pub bind {ℓ κ} : {A : Type ℓ} {B : Type κ} → Result A → (A → Result B) → Result B
bind r next = elim r [ panic ↦ panic | err e ↦ err e | ok a ↦ next a ]

pub Result-cases {ℓ} :
    {A : Type ℓ} (r : Result A) → ((a : A) × (r ≡ ok a)) ⊎ ((e : Error) × (r ≡ err e)) ⊎ (r ≡ panic)
Result-cases (ok a) = inl (a, refl)
Result-cases (err e) = inr (inl (e, refl))
Result-cases panic = inr (inr refl)
