-- ===== src/Apache/Lookup/Check.antt =====
-- webconnect/apache1/mod_pcc.c: the search through the extensions of a directory.
use roadsend_php.Base.{
  ℕ, ◌+◌, ◌≡◌, refl, sym, List, [], ◌∷◌, ◌++◌, map, Option, some, Bool, false, ◌||◌, ◌==◌, length,
  arith, length-append, append_assoc, Bool-cases, inl, inr,
}
use roadsend_php.Apache.{Cfg}
use roadsend_php.Apache.Exts.{Shows, exts_at}
use roadsend_php.Apache.Lookup.{match_extension, exts_loop, try_file_in_lib}

-- Whether one of the extensions matches.
unfoldable pub any_matches : List (List ℕ) → List ℕ → Bool
any_matches [] filename = false
any_matches (ext ∷ exts) filename = match_extension filename ext || any_matches exts filename

exts_loop-any :
    (left done : List (List ℕ)) (rest : List (Option (List ℕ))) (filename : List ℕ)
    → exts_loop (length left) (length done) (map some (done ++ left) ++ rest) filename
      ≡ some (any_matches left filename)
unfolding exts_loop any_matches
exts_loop-any [] done rest filename = refl
exts_loop-any (ext ∷ left) done rest filename =
    let read = exts_at done left ext rest in
    let next : length done + 1 ≡ length (done ++ ext ∷ []) = sym (length-append done (ext ∷ [])) in
    let others = exts_loop-any left (done ++ ext ∷ []) rest filename in
    elim (Bool-cases (match_extension filename ext)) [
      | inl yes_it_does ↦ rw (read, yes_it_does) refl
      | inr other ↦ rw (read, other, next) (rw (append_assoc done (ext ∷ []) left) at others)
    ]

pub try_file_in_lib-any :
    (exts : List (List ℕ)) (cfg : Cfg) (filename : List ℕ)
    → Shows exts cfg
    → try_file_in_lib (some cfg) filename ≡ some (any_matches exts filename)
unfolding try_file_in_lib exts_loop
try_file_in_lib-any exts cfg filename h =
    let looped : exts_loop cfg.num_exts 0 cfg.webapp_exts filename
        ≡ some (any_matches exts filename) =
      rw (h.split, h.count) (exts_loop-any exts [] h.rest filename) in
    elim (Bool-cases (cfg.num_exts == 0)) [
      | inl empty ↦ let count : cfg.num_exts ≡ 0 = ground arith in rw empty (rw count at looped)
      | inr more ↦ rw (more, looped) refl
    ]
