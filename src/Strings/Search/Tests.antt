-- ===== src/Strings/Search/Tests.antt =====
-- runtime/c-runtime.c: the searches on concrete strings.
use roadsend_php.Base.{
  ℕ, zero, suc, ◌<◌, ◌≡◌, ◌≢◌, refl, List, [], ◌∷◌, ◌++◌, codes, true, false, arith, get_or,
  get_elem?-get_or,
}
use roadsend_php.Base.Int.{pos, ◌-ℤ◌}
use roadsend_php.Strings.Search.{
  found, missing, re_strstr, re_stristr, search, first_loop, first_byte, behind, scan, next_byte,
  second, second_byte, compare_rest, rest_loop, to_lower,
}
use roadsend_php.Strings.Search.Compare.{IsTerminated}
use roadsend_php.Strings.Search.First.{IsFirst}
use roadsend_php.Strings.Search.Position.{query, searches-IsFirst}

abbrev haystack : List ℕ
haystack = codes "xababc" ++ 0 ∷ []

abbrev needle : List ℕ
needle = codes "abc" ++ 0 ∷ []

haystack-IsTerminated : IsTerminated haystack 6
haystack-IsTerminated = record {
  at = λ i. get_or haystack i 0;
  reads = λ i le. get_elem?-get_or haystack i 0 (omega arith);
  ends = refl;
}

abbrev needle-IsTerminated : IsTerminated needle 3
needle-IsTerminated = record {
  at = λ i. get_or needle i 0;
  reads = λ i le. get_elem?-get_or needle i 0 (omega arith);
  ends = refl;
}

needle_text : (k : ℕ) → k < 3 → get_or needle k 0 ≢ 0
needle_text zero lt = omega arith
needle_text (suc zero) lt = omega arith
needle_text (suc (suc zero)) lt = omega arith
needle_text (suc (suc (suc k))) lt = absurd (omega arith)

later : re_strstr haystack (pos 6) needle 3 ≡ found 3
unfolding re_strstr search first_loop first_byte ◌-ℤ◌ behind scan next_byte second second_byte
    compare_rest rest_loop
later = refl

-- The third byte is compared with its case.
third_byte : re_stristr (codes "ABC" ++ 0 ∷ []) (pos 3) needle 3 ≡ missing
unfolding re_stristr search first_loop first_byte ◌-ℤ◌ behind scan next_byte second second_byte
    compare_rest rest_loop to_lower
third_byte = refl

searches-IsFirst_example :
    IsFirst
      (query needle 3 needle-IsTerminated needle_text
        (omega arith)
        haystack
        6
        haystack-IsTerminated
        true)
      (re_strstr haystack (pos 6) needle 3)
    × IsFirst
        (query needle 3 needle-IsTerminated needle_text
          (omega arith)
          haystack
          6
          haystack-IsTerminated
          false)
        (re_stristr haystack (pos 6) needle 3)
searches-IsFirst_example =
    searches-IsFirst needle 3 needle-IsTerminated needle_text (omega arith) haystack 6
      haystack-IsTerminated
