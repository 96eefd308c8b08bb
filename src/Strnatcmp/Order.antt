-- ===== src/Strnatcmp/Order.antt =====
-- strnatcmp.c: the order is total and antisymmetric.
use roadsend_php.Base.{
  ℕ, zero, suc, ◌+◌, ◌<◌, ◌≤◌, ◌≡◌, ◌≢◌, ◌↔◌, refl, sym, ap, ◌∙◌, List, [], ◌∷◌, Option, none, some,
  Bool, true, false, arith, ltb, ◌==◌, length, Bool-cases, inl, inr,
}
use roadsend_php.Strnatcmp.{
  Sign, less, equal, greater, head_byte, rest_bytes, is_digit, to_upper, char_value, next_bias,
  compare_right, compare_left, skip_spaces, digit_run, fold_char, finish_chars, finish_round,
  natcmp_loop, strnatcmp0,
}

-- The sign of the comparison the other way round.
unfoldable pub negate : Sign → Sign
negate less = greater
negate equal = equal
negate greater = less

negate_opt : Option Sign → Option Sign
unfolding negate
negate_opt none = none
negate_opt (some s) = some (negate s)

next_bias-negate : (s : Sign) (x y : ℕ) → next_bias (negate s) y x ≡ negate (next_bias s x y)
unfolding next_bias negate
next_bias-negate less x y = refl
next_bias-negate greater x y = refl
next_bias-negate equal x y = ground arith

pub compare_right-negate :
    (s : Sign) (a b : List ℕ) → compare_right (negate s) b a ≡ negate (compare_right s a b)
unfolding compare_right negate is_digit
compare_right-negate s [] [] = refl
compare_right-negate s [] (y ∷ b) = ground arith
compare_right-negate s (x ∷ a) [] = ground arith
compare_right-negate s (x ∷ a) (y ∷ b) =
    ground (arith, compare_right-negate (next_bias s x y) a b, next_bias-negate s x y)

compare_left-negate : (a b : List ℕ) → compare_left b a ≡ negate (compare_left a b)
unfolding compare_left negate is_digit
compare_left-negate [] [] = refl
compare_left-negate [] (y ∷ b) = ground arith
compare_left-negate (x ∷ a) [] = ground arith
compare_left-negate (x ∷ a) (y ∷ b) = ground (arith, compare_left-negate a b)

digit_run-negate : (a b : List ℕ) → digit_run b a ≡ negate (digit_run a b)
unfolding digit_run negate
digit_run-negate a b =
    let right : compare_right equal b a ≡ negate (compare_right equal a b) =
      unfold negate in compare_right-negate equal a b in
    ground (arith, compare_left-negate a b, right)

-- Only the NUL is the least byte, also behind `toupper`.
fold_zero_iff : (f : Bool) (c : ℕ) → (char_value (fold_char f c) ≡ 128) ↔ (c ≡ 0)
unfolding char_value fold_char to_upper
fold_zero_iff true c = ground arith
fold_zero_iff false c = ground arith

chars-negate :
    (x y p q : ℕ) (n m : Option Sign)
    → (p ≡ 128) ↔ (x ≡ 0)
    → (q ≡ 128) ↔ (y ≡ 0)
    → (x ≢ 0 → y ≢ 0 → m ≡ negate_opt n)
    → finish_chars y x q p m ≡ negate_opt (finish_chars x y p q n)
unfolding finish_chars negate_opt negate
chars-negate x y p q n m hp hq h = ground arith

chars-some :
    (x y p q : ℕ) (n : Option Sign)
    → (p ≡ 128) ↔ (x ≡ 0)
    → (q ≡ 128) ↔ (y ≡ 0)
    → (x ≢ 0 → (r : Sign) × (n ≡ some r))
    → (r : Sign) × (finish_chars x y p q n ≡ some r)
unfolding finish_chars
chars-some x y p q n hp hq h = elim (Bool-cases (x == 0)) [
  | inl tx ↦ elim (Bool-cases (y == 0)) [
    | inl ty ↦ (equal, ground arith)
    | inr ty ↦ elim (Bool-cases (ltb p q)) [
      | inl t ↦ (less, ground arith)
      | inr t ↦ (greater, ground arith)
    ]
  ]
  | inr tx ↦ elim (Bool-cases (ltb p q)) [
    | inl t ↦ (less, ground arith)
    | inr t ↦ elim (Bool-cases (ltb q p)) [
      | inl u ↦ (greater, ground arith)
      | inr u ↦ let (r, e) = h (ground arith) in (r, ground arith)
    ]
  ]
]

finish_round-negate :
    (fold_case : Bool) (x y : ℕ) (s : Sign) (n m : Option Sign)
    → (x ≢ 0 → y ≢ 0 → m ≡ negate_opt n)
    → finish_round fold_case y x (negate s) m ≡ negate_opt (finish_round fold_case x y s n)
unfolding finish_round negate_opt negate
finish_round-negate f x y less n m h = refl
finish_round-negate f x y greater n m h = refl
finish_round-negate f x y equal n m h =
    chars-negate x y _ _ n m (fold_zero_iff f x) (fold_zero_iff f y) h

finish_round-some :
    (f : Bool) (x y : ℕ) (s : Sign) (n : Option Sign)
    → (x ≢ 0 → (r : Sign) × (n ≡ some r))
    → (r : Sign) × (finish_round f x y s n ≡ some r)
unfolding finish_round
finish_round-some f x y less n h = (less, refl)
finish_round-some f x y greater n h = (greater, refl)
finish_round-some f x y equal n h = chars-some x y _ _ n (fold_zero_iff f x) (fold_zero_iff f y) h

length-skip_spaces : (a : List ℕ) → length (skip_spaces a) ≤ length a
unfolding skip_spaces
length-skip_spaces [] = omega arith
length-skip_spaces (c ∷ a) = ground (arith, length-skip_spaces a)

length-rest_bytes : (a : List ℕ) → head_byte a ≢ 0 → length a ≡ suc (length (rest_bytes a))
length-rest_bytes [] h = absurd (h refl)
length-rest_bytes (c ∷ a) h = refl

-- Where enough rounds are given to both calls, their results are opposite.
natcmp_loop-negate :
    (k m : ℕ) (f : Bool) (a b : List ℕ)
    → length a < k
    → length b < m
    → natcmp_loop m f b a ≡ negate_opt (natcmp_loop k f a b)
unfolding natcmp_loop
natcmp_loop-negate zero m f a b ha hb = absurd (omega arith)
natcmp_loop-negate (suc k) zero f a b ha hb = absurd (omega arith)
natcmp_loop-negate (suc k) (suc m) f a b ha hb =
    let sa = skip_spaces a in
    let sb = skip_spaces b in
    let la = length-skip_spaces a in
    let lb = length-skip_spaces b in
    ap
      (λ s.
        finish_round f (head_byte sb) (head_byte sa) s
          (natcmp_loop m f (rest_bytes sb) (rest_bytes sa)))
      (digit_run-negate sa sb)
    ∙ finish_round-negate f (head_byte sa) (head_byte sb) (digit_run sa sb) _ _ (λ nx ny.
      natcmp_loop-negate k m f (rest_bytes sa) (rest_bytes sb)
        (omega (arith, length-rest_bytes sa nx)) (omega (arith, length-rest_bytes sb ny)))

natcmp_loop-some :
    (k : ℕ) (f : Bool) (a b : List ℕ) → length a < k → (s : Sign) × (natcmp_loop k f a b ≡ some s)
unfolding natcmp_loop
natcmp_loop-some zero f a b h = absurd (omega arith)
natcmp_loop-some (suc k) f a b h =
    let sa = skip_spaces a in
    let sb = skip_spaces b in
    finish_round-some f (head_byte sa) (head_byte sb) (digit_run sa sb) _ (λ nx.
      natcmp_loop-some k f (rest_bytes sa) (rest_bytes sb)
        (omega (arith, length-skip_spaces a, length-rest_bytes sa nx)))

-- Both comparisons end, with opposite results when the strings are swapped, whether case is folded or not.
pub strnatcmp0-negate :
    (f : Bool) (a b : List ℕ)
    → (s : Sign) × (strnatcmp0 f a b ≡ some s) × (strnatcmp0 f b a ≡ some (negate s))
unfolding strnatcmp0 negate_opt
strnatcmp0-negate f a b =
    let (s, first) = natcmp_loop-some (length a + 1) f a b (omega arith) in
    (
      s,
      first,
      natcmp_loop-negate (length a + 1) (length b + 1) f a b (omega arith) (omega arith)
          ∙ ap negate_opt first,
    )

negate_fixed : (s : Sign) → s ≡ negate s → s ≡ equal
unfolding negate
negate_fixed s h = ground arith

some-injective : (s t : Sign) → some s ≡ some t → s ≡ t
some-injective s t h = cc h

pub strnatcmp0_same : (f : Bool) (a : List ℕ) → strnatcmp0 f a a ≡ some equal
strnatcmp0_same f a =
    let (s, here, there) = strnatcmp0-negate f a a in
    here ∙ ap some (negate_fixed s (some-injective s (negate s) (sym here ∙ there)))
