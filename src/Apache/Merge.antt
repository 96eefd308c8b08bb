-- ===== src/Apache/Merge.antt =====
-- webconnect/apache1/mod_pcc.c: merging the configurations of directories.
pub mod Order
use native.Mathlib.Decide.{dec_lt}
use roadsend_php.Base.{
  ℕ, zero, suc, ◌+◌, ◌-◌, ◌≤◌, ◌<◌, ◌≡◌, refl, sym, ap, ◌∙◌, List, [], ◌∷◌, ◌++◌, map, Option, none,
  some, Bool, true, false, ltb, leb, if◌then◌else◌, ◌>>=◌, length, drop, length-drop, get_elem?,
  set, replicate, arith, length-append, set-append, append-nil, append_assoc, Bool-cases,
  Option-cases, inl, inr, ◌⊎◌,
}
use roadsend_php.Apache.{
  Cfg, directory, put_ext, no_exts, join_paths, merge_paths, copy_exts, if_lib, pcc_merge_per_dir,
}
use roadsend_php.Apache.Exts.{Shows, length-map, map-append, at_least_one, exts_at}

put_ext-end :
    (done : List (List ℕ)) (x : List ℕ) (room fewer : List (Option (List ℕ))) (y : Option (List ℕ))
    → room ≡ y ∷ fewer
    → put_ext (map some done ++ room) (length done) (some x)
      ≡ some (map some (done ++ x ∷ []) ++ fewer)
unfolding put_ext
put_ext-end done x room fewer y e =
    let place : length done ≡ length (map some done) = sym (length-map done) in
    let inside : ltb (length (map some done)) (length (map some done ++ y ∷ fewer)) ≡ true =
      ground (arith, length-append (map some done) (y ∷ fewer)) in
    rw (e, place, inside, set-append (map some done) fewer y (some x), map-append done (x ∷ []))
      refl

-- Copying what is left behind what has been copied, over the room there is.
copy_exts-map :
    (left done : List (List ℕ)) (rest room : List (Option (List ℕ)))
    → length left ≤ length room
    → copy_exts
        (length left)
        (length done)
        (map some (done ++ left) ++ rest)
        (map some done ++ room)
      ≡ some (map some (done ++ left) ++ drop (length left) room)
unfolding copy_exts
copy_exts-map [] done rest room le = rw (append-nil done) refl
copy_exts-map (x ∷ left) done rest room le =
    let (y, fewer, e) = at_least_one room (omega arith) in
    let read = exts_at done left x rest in
    let put = put_ext-end done x room fewer y e in
    let next : length done + 1 ≡ length (done ++ x ∷ []) = sym (length-append done (x ∷ [])) in
    let fits : length room ≡ suc (length fewer) = ap length e in
    let copied = copy_exts-map left (done ++ x ∷ []) rest fewer (omega arith) in
    let behind : drop (suc (length left)) room ≡ drop (length left) fewer =
      ap (drop (suc (length left))) e in
    rw (read, put, next, behind) (rw (append_assoc done (x ∷ []) left) at copied)

-- The buffer for two paths is big enough where the new one is the longer of the two.
abbrev pub Fits : Option (List ℕ) → Option (List ℕ) → Type 0
Fits (some new) (some parent) = length parent < length new
Fits (some new) none = Unit
Fits none parent = Unit

-- The new path in front of that of the directory above.
abbrev pub joined : Option (List ℕ) → Option (List ℕ) → Option (List ℕ)
joined (some new) (some parent) = some (new ++ b':' ∷ parent)
joined (some new) none = some new
joined none parent = parent

merge_paths-Fits :
    (new parent : Option (List ℕ))
    → Fits new parent
    → merge_paths new parent ≡ some (joined new parent)
unfolding merge_paths join_paths
merge_paths-Fits none none h = refl
merge_paths-Fits none (some parent) h = refl
merge_paths-Fits (some new) none h = refl
merge_paths-Fits (some new) (some parent) h =
    let fits : leb (length (new ++ b':' ∷ parent) + 1) (1 + length new + length new) ≡ true =
      ground (arith, length-append new (b':' ∷ parent)) in
    rw fits refl

merge_paths_over :
    (new parent : Option (List ℕ)) → ¬ (Fits new parent) → merge_paths new parent ≡ none
unfolding merge_paths join_paths
merge_paths_over none none h = absurd (h tt)
merge_paths_over none (some parent) h = absurd (h tt)
merge_paths_over (some new) none h = absurd (h tt)
merge_paths_over (some new) (some parent) h =
    let over : leb (length (new ++ b':' ∷ parent) + 1) (1 + length new + length new) ≡ false =
      ground (arith, length-append new (b':' ∷ parent)) in
    rw over refl

Fits-dec : (new parent : Option (List ℕ)) → Fits new parent ⊎ (¬ (Fits new parent))
Fits-dec none parent = inl tt
Fits-dec (some new) none = inl tt
Fits-dec (some new) (some parent) = elim (dec_lt (length parent) (length new)) [
  | yes lt ↦ inl lt
  | no ge ↦ inr ge
]

-- What merging makes of a directory with these extensions.
abbrev pub merged : List (List ℕ) → Cfg → Cfg → Cfg
merged exts pconf nconf = record {
  cmode = directory;
  loc = nconf.loc;
  include_path = joined nconf.include_path pconf.include_path;
  webapp_lib = if_lib nconf.webapp_lib nconf.webapp_lib pconf.webapp_lib;
  webapp_index = if_lib nconf.webapp_lib nconf.webapp_index pconf.webapp_index;
  webapp_exts = map some exts ++ drop (length exts) no_exts;
  num_exts = nconf.num_exts;
  custom_exts = nconf.custom_exts;
}

pub merged-Shows :
    (exts : List (List ℕ)) (pconf nconf : Cfg)
    → Shows exts nconf
    → Shows exts (merged exts pconf nconf)
merged-Shows exts pconf nconf h = record {
  rest = drop (length exts) no_exts;
  split = refl;
  size = omega (arith, h.size, length-drop (length exts) no_exts);
  count = h.count;
}

-- Merging the configuration of a directory into that above it gives one with the extensions of the
-- directory, its web library with its index or else that above, and the include path of the
-- directory before that above; it leaves the buffer for the path exactly where both have one and
-- that of the directory is not the longer.
pub pcc_merge_per_dir_lem :
    (exts : List (List ℕ)) (pconf nconf : Cfg)
    → Shows exts nconf
    → (Fits nconf.include_path pconf.include_path
        → (pcc_merge_per_dir pconf nconf ≡ some (merged exts pconf nconf))
          × Shows exts (merged exts pconf nconf))
      × (¬ (Fits nconf.include_path pconf.include_path) → pcc_merge_per_dir pconf nconf ≡ none)
unfolding pcc_merge_per_dir
pcc_merge_per_dir_lem exts pconf nconf h =
    let room : length exts ≤ 30 = omega (arith, h.size) in
    let copied : copy_exts nconf.num_exts 0 nconf.webapp_exts no_exts
        ≡ some (map some exts ++ drop (length exts) no_exts) =
      rw (h.split, h.count) (copy_exts-map exts [] h.rest no_exts room) in
    (
      λ fits. (
        rw (merge_paths-Fits nconf.include_path pconf.include_path fits, copied) refl,
        merged-Shows exts pconf nconf h,
      ),
      λ over. rw (merge_paths_over nconf.include_path pconf.include_path over) refl,
    )

-- Where merging gives a configuration, the paths fit.
pub merge-inversion :
    (exts : List (List ℕ)) (pconf nconf m : Cfg)
    → Shows exts nconf
    → pcc_merge_per_dir pconf nconf ≡ some m
    → Fits nconf.include_path pconf.include_path × (m ≡ merged exts pconf nconf)
merge-inversion exts pconf nconf m h e =
    let (fitting, over) = pcc_merge_per_dir_lem exts pconf nconf h in
    elim (Fits-dec nconf.include_path pconf.include_path) [
      | inl fits ↦ (fits, let (f, _) = fitting fits in cc)
      | inr bad ↦ let f = over bad in cc
    ]
