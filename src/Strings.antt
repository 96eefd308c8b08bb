-- ===== src/Strings.antt =====
-- runtime/c-runtime.c: the comparison of binary strings.
pub mod Order
pub mod Search
mod Tests
use roadsend_php.Base.{ℕ, zero, suc, ◌+◌, ◌≡◌, List, [], ◌∷◌, Bool, true, false, ltb, if◌then◌else◌}
use roadsend_php.Base.Int.{ℤ, pos, negsuc, ◌-ℤ◌}
use roadsend_php.Strnatcmp.{Sign, less, equal, greater}

-- Only the sign of such a result counts.
unfoldable pub sign_of : ℤ → Sign
sign_of (pos zero) = equal
sign_of (pos (suc n)) = greater
sign_of (negsuc n) = less

-- The order of the first `n` bytes: the first difference decides.
pub compare_first : ℕ → List ℕ → List ℕ → Sign
compare_first zero s1 s2 = equal
compare_first (suc n) [] s2 = equal
compare_first (suc n) (x ∷ s1) [] = equal
compare_first (suc n) (x ∷ s1) (y ∷ s2) =
    let rest = compare_first n s1 s2 in if ltb x y then less else if ltb y x then greater else rest

-- `memcmp` of C, of which only the sign is documented.
pub record Memcmp : Type 0 where
  pub memcmp : List ℕ → List ℕ → ℕ → ℤ
  pub sign : (s1 s2 : List ℕ) (n : ℕ) → sign_of (memcmp s1 s2 n) ≡ compare_first n s1 s2

-- The macro `MIN`.
pub min_length : ℕ → ℕ → ℕ
min_length a b = if ltb a b then a else b

-- `if (!rval)`
choose : ℤ → ℤ → ℤ
choose (pos zero) lengths = lengths
choose (pos (suc n)) lengths = pos (suc n)
choose (negsuc n) lengths = negsuc n

pub binary_strcmp : Memcmp → List ℕ → ℕ → List ℕ → ℕ → ℤ
binary_strcmp m s1 len1 s2 len2 =
    choose (m.memcmp s1 s2 (min_length len1 len2)) (pos len1 -ℤ pos len2)
