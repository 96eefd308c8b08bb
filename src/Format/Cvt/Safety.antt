-- ===== src/Format/Cvt/Safety.antt =====
-- pcc_snprintf.c: `pcc_ecvt` of a finite number returns, stays in its array and ends the digits.
use roadsend_php.Base.{
  ℕ, zero, suc, ◌+◌, ◌-◌, ◌<◌, ◌≤◌, ◌≡◌, refl, ◌∙◌, List, [], ◌∷◌, some, Bool, true, false, not,
  ◌&&◌, ltb, leb, ◌==◌, if◌then◌else◌, length, get_elem?, set, arith, length-set, Bool-cases, inl,
  inr,
}
use roadsend_php.Base.Int.{ℤ, pos}
use roadsend_php.Base.Ensures.{Returns, Returns-bind, Returns-if, Returns-some}
use roadsend_php.Format.Real.{Real}
use roadsend_php.Format.Cvt.Bounds.{
  IsArray, IsWhole, store-IsArray, get-Returns, whole_step-IsWhole, copy_loop-IsArray,
  carry-IsArray,
}
use roadsend_php.Format.Cvt.{
  ndig, store, Whole, whole_step, carry, copy_loop, Cvt, round_at, whole_loop, zeros_loop,
  digits_loop, Start, cvt_start, cvt_digits, cvt_finish, pcc_cvt, pcc_ecvt,
}

get_elem?-set : (buf : List ℕ) (p c : ℕ) → p < length buf → get_elem? (set buf p c) p ≡ some c
get_elem?-set [] p c lt = absurd (omega arith)
get_elem?-set (x ∷ buf) zero c lt = refl
get_elem?-set (x ∷ buf) (suc p) c lt = get_elem?-set buf p c (omega arith)

-- An array of 80 bytes with a NUL at the place.
abbrev pub EndsAt : ℕ → List ℕ → Type 0
EndsAt p buf = IsArray buf × (get_elem? buf p ≡ some 0)

store-EndsAt : (buf : List ℕ) (p : ℕ) → IsArray buf → p < 80 → Returns (EndsAt p) (store buf p 0)
unfolding store
store-EndsAt buf p h lt =
    let inside : ltb p (length buf) ≡ true = ground arith in
    rw inside (length-set buf p 0 ∙ h, get_elem?-set buf p 0 (omega arith))

round_at-EndsAt :
    (p1 : ℕ) (r2 : ℤ) (sign : Bool) (buf : List ℕ)
    → IsArray buf
    → p1 < 80
    → Returns (λ v. EndsAt p1 v.buf) (round_at true p1 r2 sign buf)
unfolding round_at
round_at-EndsAt p1 r2 sign buf h lt =
    Returns-bind _ _ (get_elem? buf p1) _ (get-Returns buf p1 (omega arith)) (λ c _.
      Returns-bind IsArray _ (store buf p1 (c + 5)) _ (store-IsArray buf p1 (c + 5) h lt)
        (λ raised k.
          Returns-bind (λ x. IsArray x.0) _ (carry p1 raised) _ (carry-IsArray p1 raised k lt)
            (λ x l.
              let short : (x.1 && not true) ≡ false = ground arith in
              rw short (
                Returns-bind (EndsAt p1) _ (store x.0 p1 0) _ (store-EndsAt x.0 p1 l lt)
                  (λ ended m. m)))))

module _ (r : Real) where
  open r use {
    D, is_finite, is_negative, is_positive, is_zero, lt_one, neg, mul_10, div_10, whole, frac,
  }
  open r use {to_int, tenth, digits, zeros, whole_digits, small_zeros, whole_finite, neg_finite}

  whole_loop-IsWhole :
      (fuel ndigits : ℕ) (fi : D) (w : Whole)
      → ndigits ≤ 78
      → IsWhole w
      → is_finite fi ≡ true
      → digits fi < fuel
      → Returns IsWhole (whole_loop r fuel ndigits fi w)
  unfolding whole_loop
  whole_loop-IsWhole zero ndigits fi w le h f enough = absurd (omega arith)
  whole_loop-IsWhole (suc fuel) ndigits fi w le h f enough =
      Returns-if _ (is_zero fi) _ _ (λ _. h)
        (λ more.
          let (less, g) = whole_digits fi f more in
          Returns-bind _ _ (whole_step ndigits (tenth (frac (div_10 fi))) w) _
            (whole_step-IsWhole ndigits (tenth (frac (div_10 fi))) w le h)
            (λ v k. whole_loop-IsWhole fuel ndigits (whole (div_10 fi)) v le k g (omega arith)))

  zeros_loop-Returns :
      (fuel : ℕ) (ndigits : ℕ) (arg : D) (n : ℕ)
      → is_positive arg ≡ true
      → zeros arg < fuel
      → Returns (λ _. Unit {0}) (zeros_loop r fuel true ndigits arg n)
  unfolding zeros_loop
  zeros_loop-Returns zero ndigits arg n h enough = absurd (omega arith)
  zeros_loop-Returns (suc fuel) ndigits arg n h enough =
      Returns-if _ (lt_one (mul_10 arg) && true) _ _
        (λ e.
          let small : lt_one (mul_10 arg) ≡ true = ground arith in
          let (less, k) = small_zeros arg h small in
          zeros_loop-Returns fuel ndigits (mul_10 arg) (n + 1) k (omega arith))
        (λ _. tt)

  digits_loop-IsArray :
      (rounds p : ℕ) (fj arg : D) (buf : List ℕ)
      → IsArray buf
      → p + rounds ≤ 80
      → Returns IsArray (digits_loop r rounds p fj arg buf)
  unfolding digits_loop
  digits_loop-IsArray zero p fj arg buf h le = h
  digits_loop-IsArray (suc rounds) p fj arg buf h le =
      Returns-bind IsArray _ (store buf p _) _ (store-IsArray buf p _ h (omega arith))
        (λ next k. digits_loop-IsArray rounds (p + 1) _ _ next k (omega arith))

  cvt_start-IsArray :
      (ndigits : ℕ) (fi arg : D) (buf : List ℕ)
      → ndigits ≤ 78
      → is_finite fi ≡ true
      → IsArray buf
      → Returns (λ s. IsArray s.buf) (cvt_start r true ndigits fi arg buf)
  unfolding cvt_start
  cvt_start-IsArray ndigits fi arg buf le f h =
      let start : Whole = record { buf = buf; p1 = ndig; r2 = 0 } in
      let start-IsWhole : IsWhole start = record { array = h; inside = omega arith } in
      Returns-if _ (not (is_zero fi)) _ _
        (λ _.
          Returns-bind IsWhole _ (whole_loop r (suc (digits fi)) ndigits fi start) _
            (whole_loop-IsWhole (suc (digits fi)) ndigits fi start le start-IsWhole f (omega arith))
            (λ w k.
              Returns-bind IsArray _ (copy_loop (ndig - w.p1) 0 w.p1 w.buf) _
                (copy_loop-IsArray (ndig - w.p1) 0 w.p1 w.buf k.array (omega arith)
                  (omega (arith, k.inside)))
                (λ copied l. l)))
        (λ _.
          Returns-if _ (is_positive arg) _ _
            (λ e.
              Returns-bind _ _ (zeros_loop r (suc (zeros arg)) true ndigits arg 0) _
                (zeros_loop-Returns (suc (zeros arg)) ndigits arg 0 e (omega arith)) (λ x _. h))
            (λ _. h))

  cvt_digits-IsArray :
      (p1 : ℕ) (s : Start r) → IsArray s.buf → Returns (λ x. IsArray x.0) (cvt_digits r p1 s)
  unfolding cvt_digits
  cvt_digits-IsArray p1 s h =
      let last = if ltb p1 ndig then p1 + 1 else ndig in
      let short : last ≤ 80 = ground arith in
      Returns-if _ (leb s.p p1 && ltb s.p ndig) _ _
        (λ e.
          let inside : s.p < 80 = ground arith in
          let first : s.p < last = ground arith in
          Returns-if _ (to_int (whole (mul_10 s.arg)) == 10) _ _
            (λ _.
              Returns-bind IsArray _ (store s.buf s.p b'1') _
                (store-IsArray s.buf s.p b'1' h inside)
                (λ one k.
                  Returns-bind IsArray _ _ _
                    (digits_loop-IsArray (last - (s.p + 1)) (s.p + 1) _ _ one k (omega arith))
                    (λ buf l. l)))
            (λ _.
              Returns-bind IsArray _ _ _
                (digits_loop-IsArray (last - s.p) s.p _ _ s.buf h (omega arith)) (λ buf l. l)))
        (λ _. h)

  cvt_finish-EndsAt :
      (p1 : ℕ) (sign : Bool) (s : Start r)
      → IsArray s.buf
      → p1 ≤ 78
      → Returns (λ v. EndsAt p1 v.buf) (cvt_finish r true (pos p1) sign s)
  unfolding cvt_finish
  cvt_finish-EndsAt p1 sign s h le =
      let before : leb ndig p1 ≡ false = ground arith in
      Returns-bind (λ x. IsArray x.0) _ (cvt_digits r p1 s) _ (cvt_digits-IsArray p1 s h)
        (λ (buf, r2) k. rw before (round_at-EndsAt p1 r2 sign buf k (omega arith)))

  pcc_cvt-EndsAt :
      (arg : D) (ndigits : ℕ) (buf : List ℕ)
      → is_finite arg ≡ true
      → length buf ≡ 80
      → Returns
          (λ v. EndsAt (if leb 79 ndigits then 78 else ndigits) v.buf)
          (pcc_cvt r arg ndigits true buf)
  unfolding pcc_cvt
  pcc_cvt-EndsAt arg ndigits buf f h =
      let n = if leb 79 ndigits then 78 else ndigits in
      let short : n ≤ 78 = ground arith in
      let abs = if is_negative arg then neg arg else arg in
      let finite : is_finite abs ≡ true = elim (Bool-cases (is_negative arg)) [
        | inl e ↦ rw e (neg_finite arg f)
        | inr e ↦ rw e f
      ] in
      Returns-bind _ _ (cvt_start r true n (whole abs) (frac abs) buf) _
        (cvt_start-IsArray n (whole abs) (frac abs) buf short (whole_finite abs finite) h)
        (λ s k. cvt_finish-EndsAt n (is_negative arg) s k short)

  -- A result of `pcc_ecvt` exists for every finite number, every count of digits and every array of
  -- 80 bytes: its loops end and no access is outside the array, which keeps its size. The digits
  -- end with a NUL behind as many places as asked for, or behind 78 where more are asked for.
  pub pcc_ecvt_ends :
      (arg : D) (ndigits : ℕ) (buf : List ℕ)
      → is_finite arg ≡ true
      → length buf ≡ 80
      → (v : Cvt) × (pcc_ecvt r arg ndigits buf ≡ some v)
        × (length v.buf ≡ 80)
        × (get_elem? v.buf (if leb 79 ndigits then 78 else ndigits) ≡ some 0)
  unfolding pcc_ecvt
  pcc_ecvt_ends arg ndigits buf f h =
      let ended : (v : Cvt) × (pcc_cvt r arg ndigits true buf ≡ some v)
          × (EndsAt (if leb 79 ndigits then 78 else ndigits) v.buf) =
        Returns-some _ _ (pcc_cvt-EndsAt arg ndigits buf f h) in
      let (v, e, (array, nul)) = ended in (v, e, array, nul)
