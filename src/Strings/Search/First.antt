-- ===== src/Strings/Search/First.antt =====
-- runtime/c-runtime.c: the byte behind one that is the first of the needle.
use mathlib.Core.Path.{subst}
use native.Mathlib.Decide.{dec_lt}
use roadsend_php.Base.{
  ℕ, zero, suc, ◌+◌, ◌-◌, ◌<◌, ◌≤◌, ◌≡◌, refl, sym, ap, ◌∙◌, List, [], ◌∷◌, Option, none, some,
  Bool, true, false, ltb, ◌==◌, if◌then◌else◌, length, get_elem?, arith, ltb→lt,
}
use roadsend_php.Base.Int.{ℤ, pos, ◌-ℤ◌, ltb_ℤ, int_laws}
use roadsend_php.Strings.Search.{
  Result, found, missing, fault, reading, compare_rest, second, second_byte,
}
use roadsend_php.Strings.Search.Compare.{
  Query, same_byte, same_byte_later, Agree, Decides, before_end, Decides-extend,
  compare_rest-Decides,
}

-- `ih` when the next index is `p`.
abbrev pub left : ℕ → ℕ → ℤ
left n p = pos n -ℤ pos p

pub left_step : (n p : ℕ) → left n p -ℤ pos 1 ≡ left n (p + 1)
left_step n p = omega int_laws

left_neg : (n p : ℕ) → ltb_ℤ (left n p) (pos 0) ≡ ltb n p
unfolding ◌-ℤ◌
left_neg n p = ground arith

pub left_over : (n p : ℕ) → ltb_ℤ (left n p) (pos 0) ≡ true → n < p
left_over n p e = ltb→lt n p (sym (left_neg n p) ∙ e)

pub left_more : (n p : ℕ) → ltb_ℤ (left n p) (pos 0) ≡ false → p ≤ n
left_more n p e = let same : ltb n p ≡ false = sym (left_neg n p) ∙ e in ground arith

pub get_elem?-lt : (s : List ℕ) (i x : ℕ) → get_elem? s i ≡ some x → i < length s
get_elem?-lt [] i x e = cc
get_elem?-lt (y ∷ s) zero x e = omega arith
get_elem?-lt (y ∷ s) (suc i) x e = omega (arith, get_elem?-lt s i x e)

module _ (w : Query) where
  open w use {fold, haystack, needle, hslen, nlen, h, m, some_text}

  -- The needle stands at `i` in the haystack.
  abbrev pub Occurs : ℕ → Type 0
  Occurs i = Agree w i 0 nlen

  abbrev pub NoneBefore : ℕ → Type 0
  NoneBefore p = (j : ℕ) → j < p → ¬ (Occurs j)

  -- The first occurrence, if there is one.
  abbrev pub IsFirst : Result → Type 0
  IsFirst (found i) = (i + nlen ≤ hslen) × Occurs i × NoneBefore i
  IsFirst missing = (j : ℕ) → j + nlen ≤ hslen → ¬ (Occurs j)
  IsFirst fault = ⊥

  fits : (i s : ℕ) → Occurs i → i ≤ hslen → s ≤ nlen → i + s ≤ hslen
  fits i zero o le lt = omega arith
  fits i (suc s) o le lt =
      let before = fits i s o le (omega arith) in
      let more = before_end w (i + s) s before lt (o s (omega arith) lt) in omega arith

  pub NoneBefore-next : (p : ℕ) → NoneBefore p → ¬ (Occurs p) → NoneBefore (p + 1)
  NoneBefore-next p none_yet other j lt o = elim (dec_lt j p) [
    | yes less ↦ none_yet j less o
    | no last ↦ let same : j ≡ p = omega arith in other (subst Occurs same o)
  ]

  pub NoneBefore-end : (p : ℕ) → hslen ≤ p → NoneBefore p → IsFirst missing
  NoneBefore-end p le none_yet j lt = none_yet j (omega arith)

  pub start_same :
      (i : ℕ) → same_byte fold 0 (h.at (i + 0)) (m.at 0) ≡ (fold (h.at i) == fold (m.at 0))
  start_same i =
      same_byte_later fold 0 (h.at (i + 0)) (m.at 0) (omega arith)
      ∙ ap (λ j. fold (h.at j) == fold (m.at 0)) (omega arith)

  pub no_start : (i : ℕ) → (fold (h.at i) == fold (m.at 0)) ≡ false → ¬ (Occurs i)
  no_start i e o = let bad = sym (start_same i) ∙ o 0 (omega arith) some_text in cc

  pub start_inside : (i : ℕ) → i ≤ hslen → (fold (h.at i) == fold (m.at 0)) ≡ true → i < hslen
  start_inside i le e =
      before_end w i 0 le some_text (same_byte_later fold 0 (h.at i) (m.at 0) (omega arith) ∙ e)

  -- What the comparison leads to.
  choose :
      (o : Option Bool) (i i' : ℕ) (on : Result)
      → i' ≡ i
      → i ≤ hslen
      → NoneBefore i
      → Decides w i 0 o
      → (¬ (Occurs i) → IsFirst on)
      → IsFirst (elim o [ none ↦ fault | some true ↦ found i' | some false ↦ on ])
  choose none i i' on e le none_yet d next = d
  choose (some true) i i' on e le none_yet d next =
      subst (λ j. IsFirst (found j)) (sym e) (fits i nlen d le (omega arith), d, none_yet)
  choose (some false) i i' on e le none_yet d next = next d

  pub IsFirst-reading :
      (memory : List ℕ) (p x : ℕ) (k : ℕ → Result)
      → get_elem? memory p ≡ some x
      → IsFirst (k x)
      → IsFirst (reading memory p k)
  IsFirst-reading memory p x k e r =
      let same : reading memory p k ≡ k x = rw (e, reading) refl in subst IsFirst (sym same) r

  pub IsFirst-if :
      (b : Bool) (x y : Result)
      → (b ≡ true → IsFirst x)
      → (b ≡ false → IsFirst y)
      → IsFirst (if b then x else y)
  IsFirst-if true x y f g = f refl
  IsFirst-if false x y f g = g refl

  module _ (more_text : 2 ≤ nlen) where
    inside_second :
        (i : ℕ) → i < hslen → (fold (h.at (i + 1)) == fold (m.at 1)) ≡ true → i + 1 < hslen
    inside_second i lt e =
        before_end w (i + 1) 1 (omega arith) more_text
          (same_byte_later fold 1 (h.at (i + 1)) (m.at 1) (omega arith) ∙ e)

    -- Behind two bytes that agree.
    third_Decides :
        (i : ℕ)
        → i + 1 < hslen
        → same_byte fold 0 (h.at (i + 0)) (m.at 0) ≡ true
        → same_byte fold 1 (h.at (i + 1)) (m.at 1) ≡ true
        → Decides w i 0 (compare_rest fold haystack needle (nlen - 2) (i + 1 + 1))
    third_Decides i lt first after =
        let place : i + 2 ≡ i + 1 + 1 = omega arith in
        subst (λ j. Decides w i 0 (compare_rest fold haystack needle (nlen - 2) j)) place
          (Decides-extend w i 0 _ first (
            Decides-extend w i 1 _ after
              (compare_rest-Decides w (nlen - 2) i (omega arith) (omega arith))))

    -- The byte behind one that is the first of the needle.
    pub second-IsFirst :
        (on : ℕ → ℕ → ℤ → Result) (i : ℕ)
        → i < hslen
        → (fold (h.at i) == fold (m.at 0)) ≡ true
        → NoneBefore i
        → (NoneBefore (i + 1) → IsFirst (on (fold (h.at (i + 1))) (i + 2) (left hslen (i + 2))))
        → IsFirst
            (second fold haystack needle (fold (m.at 1)) (nlen - 2) on (i + 1) (left hslen (i + 1)))
    unfolding second second_byte
    second-IsFirst on i lt e none_yet k =
        let place : i + 1 + 1 ≡ i + 2 = omega arith in
        let first = start_same i ∙ e in
        let after = same_byte_later fold 1 (h.at (i + 1)) (m.at 1) (omega arith) in
        let again : ¬ (Occurs i)
            → IsFirst (on (fold (h.at (i + 1))) (i + 1 + 1) (left hslen (i + 1) -ℤ pos 1)) =
          λ no_match.
            rw (left_step hslen (i + 1), place) (k (NoneBefore-next i none_yet no_match)) in
        IsFirst-reading haystack (i + 1) (h.at (i + 1)) _ (h.reads (i + 1) (omega arith)) (
          IsFirst-if (fold (h.at (i + 1)) == fold (m.at 1)) _ _
            (λ same.
              choose (compare_rest fold haystack needle (nlen - 2) (i + 1 + 1)) i (i + 1 - 1) _
                (omega arith) (omega arith) none_yet
                (third_Decides i (inside_second i lt same) first (after ∙ same)) again)
            (λ other. again (λ o. let bad = sym after ∙ o 1 (omega arith) more_text in cc)))
