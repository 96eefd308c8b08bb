-- ===== src/Strings/Search/Loops.antt =====
-- runtime/c-runtime.c: the loops of the searches find the first occurrence.
use mathlib.Core.Path.{subst}
use roadsend_php.Base.{ℕ, zero, suc, ◌+◌, ◌-◌, ◌<◌, ◌≤◌, ◌≡◌, ◌∙◌, true, ◌==◌, length, arith}
use roadsend_php.Base.Int.{ℤ, pos, ltb_ℤ, int_laws}
use roadsend_php.Strings.Search.{
  Result, found, scan, next_byte, behind, first_byte, first_loop, search,
}
use roadsend_php.Strings.Search.Compare.{Query, same_byte}
use roadsend_php.Strings.Search.First.{
  left, left_step, left_over, left_more, get_elem?-lt, Occurs, NoneBefore, IsFirst, NoneBefore-next,
  NoneBefore-end, start_same, no_start, start_inside, IsFirst-reading, IsFirst-if, second-IsFirst,
}

module _ (w : Query) where
  open w use {fold, haystack, needle, hslen, nlen, h, m, some_text}

  module _ (more_text : 2 ≤ nlen) where
    -- The loop goes on correctly behind any later byte.
    abbrev GoesOn : (ℕ → ℕ → ℤ → Result) → ℕ → Type 0
    GoesOn on i =
        (j : ℕ)
        → i < j
        → j ≤ hslen
        → NoneBefore w j
        → IsFirst w (on (fold (h.at j)) (j + 1) (left hslen (j + 1)))

    goes_on_second :
        (on : ℕ → ℕ → ℤ → Result) (i : ℕ)
        → GoesOn on i
        → i < hslen
        → NoneBefore w (i + 1)
        → IsFirst w (on (fold (h.at (i + 1))) (i + 2) (left hslen (i + 2)))
    goes_on_second on i k lt none_yet =
        let place : i + 1 + 1 ≡ i + 2 = omega arith in
        subst (λ p. IsFirst w (on (fold (h.at (i + 1))) p (left hslen p))) place
          (k (i + 1) (omega arith) (omega arith) none_yet)

    next_byte-IsFirst :
        (on : ℕ → ℕ → ℤ → Result) (i : ℕ)
        → i + 1 ≤ hslen
        → NoneBefore w (i + 1)
        → GoesOn on i
        → IsFirst w (
            next_byte fold haystack needle
              (fold (m.at 0))
              (fold (m.at 1))
              (nlen - 2)
              on
              (i + 1)
              (left hslen (i + 1))
              (h.at (i + 1)))
    unfolding next_byte
    next_byte-IsFirst on i le none_yet k =
        let step = left_step hslen (i + 1) in
        rw step (
          IsFirst-if w (fold (h.at (i + 1)) == fold (m.at 0)) _ _
            (λ same.
              let lt = start_inside w (i + 1) le same in
              second-IsFirst w more_text on (i + 1) lt same none_yet
                (goes_on_second on (i + 1) (λ j more. k j (omega arith)) lt))
            (λ other.
              let next = NoneBefore-next w (i + 1) none_yet (no_start w (i + 1) other) in
              IsFirst-if w (ltb_ℤ (left hslen (i + 1 + 1)) (pos 0)) _ _
                (λ over.
                  let end = left_over hslen (i + 1 + 1) over in
                  NoneBefore-end w (i + 1 + 1) (omega arith) next)
                (λ more.
                  let inside = left_more hslen (i + 1 + 1) more in
                  IsFirst-reading w haystack (i + 1 + 1) (h.at (i + 1 + 1)) _ (h.reads _ inside) (
                    let three : i + 1 + 2 ≡ i + 1 + 1 + 1 = omega arith in
                    rw (left_step hslen (i + 1 + 1), three)
                      (k (i + 1 + 1) (omega arith) inside next)))))

    scan-IsFirst :
        (fuel i : ℕ)
        → i ≤ hslen
        → NoneBefore w i
        → hslen + 1 ≤ fuel + i
        → IsFirst w (
            scan fold haystack needle
              (fold (m.at 0))
              (fold (m.at 1))
              (nlen - 2)
              fuel
              (fold (h.at i))
              (i + 1)
              (left hslen (i + 1)))
    unfolding scan
    scan-IsFirst zero i le none_yet enough = absurd (omega arith)
    scan-IsFirst (suc fuel) i le none_yet enough =
        let on = scan fold haystack needle (fold (m.at 0)) (fold (m.at 1)) (nlen - 2) fuel in
        let k : GoesOn on i =
          λ j more inside none_before. scan-IsFirst fuel j inside none_before (omega arith) in
        IsFirst-if w (fold (h.at i) == fold (m.at 0)) _ _
          (λ same.
            let lt = start_inside w i le same in
            second-IsFirst w more_text on i lt same none_yet (goes_on_second on i k lt))
          (λ other.
            let next = NoneBefore-next w i none_yet (no_start w i other) in
            IsFirst-if w (ltb_ℤ (left hslen (i + 1)) (pos 0)) _ _
              (λ over.
                let end = left_over hslen (i + 1) over in
                NoneBefore-end w (i + 1) (omega arith) next)
              (λ more.
                let inside = left_more hslen (i + 1) more in
                IsFirst-reading w haystack (i + 1) (h.at (i + 1)) _ (h.reads (i + 1) inside)
                  (next_byte-IsFirst on i inside next k)))

  behind-IsFirst :
      (fuel i : ℕ)
      → i < hslen
      → (fold (h.at i) == fold (m.at 0)) ≡ true
      → NoneBefore w i
      → hslen ≤ fuel + i
      → IsFirst w
          (behind fold haystack needle fuel nlen (fold (m.at 0)) (i + 1) (left hslen (i + 1)))
  unfolding behind
  behind-IsFirst fuel i lt same none_yet enough =
      IsFirst-reading w needle 1 (m.at 1) _ (m.reads 1 some_text) (
        IsFirst-if w (nlen - 1 == 0) _ _
          (λ one.
            let single : nlen ≡ 1 = ground arith in
            let here : Occurs w i = λ k lo hi.
              let first : 0 ≡ k = omega arith in
              subst (λ j. same_byte fold j (h.at (i + j)) (m.at j) ≡ true) first
                (start_same w i ∙ same) in
            let back : i ≡ i + 1 - 1 = omega arith in
            subst (λ j. IsFirst w (found j)) back (omega arith, here, none_yet))
          (λ several.
            let more_text : 2 ≤ nlen = ground arith in
            let on = scan fold haystack needle (fold (m.at 0)) (fold (m.at 1)) (nlen - 2) fuel in
            second-IsFirst w more_text on i lt same none_yet (
              goes_on_second more_text on i
                (λ j more inside none_before.
                  scan-IsFirst more_text fuel j inside none_before (omega arith))
                lt)))

  first_loop-IsFirst :
      (fuel p : ℕ)
      → p ≤ hslen
      → NoneBefore w p
      → hslen + 1 ≤ fuel + p
      → IsFirst w (first_loop fold haystack needle fuel nlen (fold (m.at 0)) p (left hslen p))
  unfolding first_loop first_byte
  first_loop-IsFirst zero p le none_yet enough = absurd (omega arith)
  first_loop-IsFirst (suc fuel) p le none_yet enough =
      IsFirst-reading w haystack p (h.at p) _ (h.reads p le) (
        rw (left_step hslen p) (
          IsFirst-if w (ltb_ℤ (left hslen (p + 1)) (pos 0)) _ _
            (λ over.
              let end = left_over hslen (p + 1) over in NoneBefore-end w p (omega arith) none_yet)
            (λ more.
              let inside = left_more hslen (p + 1) more in
              IsFirst-if w (fold (h.at p) == fold (m.at 0)) _ _
                (λ same. behind-IsFirst fuel p (omega arith) same none_yet (omega arith))
                (λ other.
                  first_loop-IsFirst fuel (p + 1) inside
                    (NoneBefore-next w p none_yet (no_start w p other)) (omega arith)))))

  -- The search finds the first occurrence of the needle, or tells that there is none, and reads
  -- neither string behind its NUL.
  pub search-IsFirst : IsFirst w (search fold haystack needle (pos hslen) nlen)
  unfolding search
  search-IsFirst =
      let whole : left hslen 0 ≡ pos hslen = omega int_laws in
      let readable = get_elem?-lt haystack hslen (h.at hslen) (h.reads hslen (omega arith)) in
      IsFirst-reading w needle 0 (m.at 0) _ (m.reads 0 (omega arith)) (
        subst
          (λ ih.
            IsFirst w
              (first_loop fold haystack needle (length haystack + 2) nlen (fold (m.at 0)) 0 ih))
          whole
          (first_loop-IsFirst (length haystack + 2) 0 (omega arith) (λ j lt o. absurd (omega arith))
            (omega arith)))
