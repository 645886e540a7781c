-- ===== src/Response/Names.antt =====
-- `equalASCIIName`: equality of names up to the case of ASCII letters.
use dnscore.Prelude.{ℕ, ◌+◌, ◌≤◌, ◌≡◌, ◌↔◌, ◌⊎◌, Bytes, true, [], ◌∷◌, arith, ◌==◌}
use dnscore.Response.{lower, equal_ascii_name}

-- The bytes are equal, or one is the capital of the other.
abbrev pub IsCapitalOf : ℕ → ℕ → Type 0
IsCapitalOf a b = (b'A' ≤ a) × (a ≤ b'Z') × (b ≡ a + 32)

abbrev pub SameLetter : ℕ → ℕ → Type 0
SameLetter a b = (a ≡ b) ⊎ IsCapitalOf a b ⊎ IsCapitalOf b a

-- Two names of one length with the same letters.
abbrev pub SameName : Bytes → Bytes → Type 0
SameName [] [] = Unit
SameName [] (b ∷ y) = ⊥
SameName (a ∷ x) [] = ⊥
SameName (a ∷ x) (b ∷ y) = SameLetter a b × SameName x y

lower_iff : (a b : ℕ) → ((lower a == lower b) ≡ true) ↔ SameLetter a b
unfolding lower
lower_iff a b = ground arith

-- `equalASCIIName` tests exactly that two names have one length and the same letters up to the
-- case of the ASCII letters.
pub equal_ascii_name_iff : (x y : Bytes) → (equal_ascii_name x y ≡ true) ↔ SameName x y
unfolding equal_ascii_name
equal_ascii_name_iff [] [] = ground arith
equal_ascii_name_iff [] (b ∷ y) = ground arith
equal_ascii_name_iff (a ∷ x) [] = ground arith
equal_ascii_name_iff (a ∷ x) (b ∷ y) = ground (arith, lower_iff a b, equal_ascii_name_iff x y)
