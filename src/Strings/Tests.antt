-- ===== src/Strings/Tests.antt =====
-- c-runtime.c with a concrete `memcmp`.
use roadsend_php.Base.{◌≡◌, refl, [], ◌∷◌}
use roadsend_php.Base.Int.{ℤ, pos, negsuc}
use roadsend_php.Strnatcmp.{Sign, less, equal, greater}
use roadsend_php.Strings.{sign_of, compare_first, Memcmp, binary_strcmp}
use roadsend_php.Strings.Order.{lexicographic, binary_strcmp-lexicographic}

to_ℤ : Sign → ℤ
to_ℤ less = negsuc 0
to_ℤ equal = pos 0
to_ℤ greater = pos 1

sign_of-to_ℤ : (s : Sign) → sign_of (to_ℤ s) ≡ s
unfolding sign_of to_ℤ
sign_of-to_ℤ less = refl
sign_of-to_ℤ equal = refl
sign_of-to_ℤ greater = refl

-- The `memcmp` that returns -1, 0 or 1.
abbrev three_way : Memcmp
three_way = record {
  memcmp = λ s1 s2 n. to_ℤ (compare_first n s1 s2);
  sign = λ s1 s2 n. sign_of-to_ℤ (compare_first n s1 s2);
}

binary_strcmp-lexicographic_example :
    sign_of (binary_strcmp three_way (b'a' ∷ 0 ∷ b'b' ∷ []) 3 (b'a' ∷ 0 ∷ []) 2)
    ≡ lexicographic (b'a' ∷ 0 ∷ b'b' ∷ []) (b'a' ∷ 0 ∷ [])
binary_strcmp-lexicographic_example =
    binary_strcmp-lexicographic three_way (b'a' ∷ 0 ∷ b'b' ∷ []) (b'a' ∷ 0 ∷ [])
