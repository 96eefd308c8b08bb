-- ===== src/Apache/Lookup.antt =====
-- webconnect/apache1/mod_pcc.c: whether a request is for a file of a web library. Whether the
-- file exists, and is a directory, is what `stat` gives.
pub mod Match
pub mod Check
use roadsend_php.Base.{
  ℕ, zero, suc, ◌+◌, ◌-◌, List, [], ◌∷◌, Option, none, some, Bool, true, false, not, ◌&&◌, ◌||◌,
  leb, ◌==◌, if◌then◌else◌, ◌>>=◌, length, get_elem?, codes,
}
use roadsend_php.Base.Int.{ℤ, pos, negsuc}
use roadsend_php.Apache.{Cfg}

-- `OK` and `DECLINED`
abbrev pub ok_status : ℤ
ok_status = pos 0

abbrev pub declined : ℤ
declined = negsuc 0

-- `WEBAPP_MAGIC_TYPE`
abbrev pub webapp_type : List ℕ
webapp_type = codes "application/x-pcc-webapp"

-- Whether two strings are the same, `!strcmp`.
unfoldable pub same_text : List ℕ → List ℕ → Bool
same_text [] [] = true
same_text [] (y ∷ ys) = false
same_text (x ∷ xs) [] = false
same_text (x ∷ xs) (y ∷ ys) = (x == y) && same_text xs ys

-- Whether the second string begins with the first.
unfoldable pub begins : List ℕ → List ℕ → Bool
begins [] s = true
begins (c ∷ needle) [] = false
begins (c ∷ needle) (x ∷ s) = (c == x) && begins needle s

-- `strstr` of the C library: the index of the first occurrence.
unfoldable pub strstr : List ℕ → List ℕ → Option ℕ
strstr [] needle = if begins needle [] then some 0 else none
strstr (x ∷ s) needle =
    let later = strstr s needle >>= λ i. some (suc i) in
    if begins needle (x ∷ s) then some 0 else later

unfoldable pub match_extension : List ℕ → List ℕ → Bool
match_extension filename ext =
    if leb (length filename) (length ext)
    then false
    else elim (strstr filename ext) [ none ↦ false | some i ↦ i == length filename - length ext ]

-- The loop over the extensions from `i` on; a pointer that was never set is `none`.
unfoldable pub exts_loop : ℕ → ℕ → List (Option (List ℕ)) → List ℕ → Option Bool
exts_loop zero i exts filename = some false
exts_loop (suc rounds) i exts filename = do
  slot ← get_elem? exts i
  ext ← slot
  let rest = exts_loop rounds (i + 1) exts filename
  if match_extension filename ext then some true else rest

unfoldable pub try_file_in_lib : Option Cfg → List ℕ → Option Bool
try_file_in_lib none filename = some false
try_file_in_lib (some cfg) filename =
    if cfg.num_exts == 0 then some false else exts_loop cfg.num_exts 0 cfg.webapp_exts filename

-- `none` is a `stat` that fails.
pub try_lib_index : Cfg → Option Bool → Bool
try_lib_index cfg none = false
try_lib_index cfg (some is_dir) =
    is_dir && elim cfg.webapp_index [ none ↦ false | some page ↦ true ]

-- What the module reads and writes of `request_rec`.
pub record Request : Type 0 where
  pub filename : List ℕ
  pub content_type : Option (List ℕ)

unfoldable pub is_webapp_type : Option (List ℕ) → Bool
is_webapp_type none = false
is_webapp_type (some type) = same_text type webapp_type

unfoldable pub check_in_lib : Cfg → Option Bool → Request → Option (ℤ × Request)
check_in_lib cfg stat r = do
  in_lib ← try_file_in_lib (some cfg) r.filename
  if in_lib || try_lib_index cfg stat
      then some (ok_status, record r { content_type = some webapp_type })
      else some (declined, r)

-- The status, and the request with its content type.
unfoldable pub check_for_webapp : Cfg → Option Bool → Request → Option (ℤ × Request)
check_for_webapp cfg stat r = elim cfg.webapp_lib [
  | none ↦ some (ok_status, r)
  | some lib ↦ if is_webapp_type r.content_type then some (declined, r) else check_in_lib cfg stat r
]
