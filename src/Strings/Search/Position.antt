-- ===== src/Strings/Search/Position.antt =====
-- runtime/c-runtime.c: what `re_strstr`, `re_stristr` and `re_strpos` find.
use roadsend_php.Base.{
  ℕ, zero, suc, ◌+◌, ◌-◌, ◌<◌, ◌≤◌, ◌≡◌, ◌≢◌, refl, sym, ap, ◌∙◌, List, [], ◌∷◌, Option, none, some,
  Bool, true, false, get_elem?, drop, arith,
}
use roadsend_php.Base.Int.{ℤ, pos, negsuc}
use roadsend_php.Strings.Search.{
  Result, found, missing, fault, to_lower, re_strstr, re_stristr, narrow_int,
}
use roadsend_php.Strings.Search.Compare.{IsTerminated, IsFold, Query}
use roadsend_php.Strings.Search.First.{IsFirst}
use roadsend_php.Strings.Search.Loops.{search-IsFirst}

-- `re_strstr` reads the bytes as they are, and `re_stristr` through `tolower`.
abbrev pub fold_of : Bool → ℕ → ℕ
fold_of true = λ x. x
fold_of false = to_lower

pub fold_of-IsFold : (cs : Bool) → IsFold (fold_of cs)
unfolding to_lower
fold_of-IsFold true = record { nul = refl; only_nul = λ x h. h }
fold_of-IsFold false = record { nul = refl; only_nul = λ x h. ground arith }

get_elem?-drop : (n : ℕ) (s : List ℕ) (i : ℕ) → get_elem? (drop n s) i ≡ get_elem? s (n + i)
get_elem?-drop zero s i = ap (get_elem? s) (omega arith)
get_elem?-drop (suc n) [] i = refl
get_elem?-drop (suc n) (x ∷ s) i =
    let next : suc n + i ≡ suc (n + i) = omega arith in
    get_elem?-drop n s i ∙ sym (ap (get_elem? (x ∷ s)) next)

-- Behind an offset, a string still ends where it did.
pub drop-IsTerminated :
    (s : List ℕ) (n offset : ℕ)
    → IsTerminated s n
    → offset ≤ n
    → IsTerminated (drop offset s) (n - offset)
drop-IsTerminated s n offset h le = record {
  at = λ i. h.at (offset + i);
  reads = λ i lt. get_elem?-drop offset s i ∙ h.reads (offset + i) (omega arith);
  ends = ap h.at (omega arith) ∙ h.ends;
}

-- The index that `re_strpos` gives for a result.
abbrev pub index_from : ℕ → Result → Option ℤ
index_from offset (found i) = some (pos (i + offset))
index_from offset missing = some (negsuc 0)
index_from offset fault = none

-- The `int` that `re_strpos` returns for a result.
abbrev int_from : ℕ → Result → Option ℤ
int_from offset (found i) = some (narrow_int (i + offset))
int_from offset missing = some (negsuc 0)
int_from offset fault = none

module _ (needle : List ℕ) (nlen : ℕ) (m : IsTerminated needle nlen)
    (text : (k : ℕ) → k < nlen → m.at k ≢ 0) (some_text : 1 ≤ nlen) (haystack : List ℕ) (hslen : ℕ)
    (h : IsTerminated haystack hslen) where
  -- The search for the needle, with the case of letters or without.
  abbrev pub query : Bool → Query
  query cs = record {
    fold = fold_of cs;
    is_fold = fold_of-IsFold cs;
    haystack = haystack;
    needle = needle;
    hslen = hslen;
    nlen = nlen;
    h = h;
    m = m;
    text = text;
    some_text = some_text;
  }

  -- For a needle of one byte or more, none of them NUL, re_strstr finds its first occurrence or
  -- tells that there is none, and reads neither string behind its NUL. re_stristr does so up to
  -- the case of letters, but for the third byte, which it compares as it is.
  pub searches-IsFirst :
      IsFirst (query true) (re_strstr haystack (pos hslen) needle nlen)
      × IsFirst (query false) (re_stristr haystack (pos hslen) needle nlen)
  unfolding re_strstr re_stristr
  searches-IsFirst = (search-IsFirst (query true), search-IsFirst (query false))

module _ (needle : List ℕ) (nlen : ℕ) (m : IsTerminated needle nlen)
    (text : (k : ℕ) → k < nlen → m.at k ≢ 0) (some_text : 1 ≤ nlen) (haystack : List ℕ) (hslen : ℕ)
    (h : IsTerminated haystack hslen) where
  -- The search behind an offset.
  abbrev pub query_behind : (offset : ℕ) → offset ≤ hslen → Bool → Query
  query_behind offset le cs =
      query needle nlen m text some_text (drop offset haystack) (hslen - offset)
        (drop-IsTerminated haystack hslen offset h le) cs
