-- ===== src/Apache/Merge/Order.antt =====
-- webconnect/apache1/mod_pcc.c: the order in which configurations are merged.
use roadsend_php.Base.{
  ℕ, ◌≡◌, refl, sym, ap, ◌∙◌, List, ◌∷◌, Option, none, some, arith, length-append, append_assoc,
}
use roadsend_php.Apache.{Cfg, if_lib, pcc_merge_per_dir}
use roadsend_php.Apache.Exts.{Shows}
use roadsend_php.Apache.Merge.{Fits, joined, merged, pcc_merge_per_dir_lem, merge-inversion}

inner_Fits :
    (a b c : Option (List ℕ)) → Fits b a → Fits c (joined b a) → Fits c b × Fits (joined c b) a
inner_Fits none none none f g = (tt, tt)
inner_Fits none none (some c) f g = (tt, tt)
inner_Fits none (some b) none f g = (tt, tt)
inner_Fits none (some b) (some c) f g = (g, tt)
inner_Fits (some a) none none f g = (tt, tt)
inner_Fits (some a) none (some c) f g = (tt, g)
inner_Fits (some a) (some b) none f g = (tt, f)
inner_Fits (some a) (some b) (some c) f g = (
  omega (arith, length-append b (b':' ∷ a)),
  omega (arith, length-append b (b':' ∷ a), length-append c (b':' ∷ b)),
)

joined_assoc : (a b c : Option (List ℕ)) → joined (joined c b) a ≡ joined c (joined b a)
joined_assoc none none none = refl
joined_assoc none none (some c) = refl
joined_assoc none (some b) none = refl
joined_assoc none (some b) (some c) = refl
joined_assoc (some a) none none = refl
joined_assoc (some a) none (some c) = refl
joined_assoc (some a) (some b) none = refl
joined_assoc (some a) (some b) (some c) = ap some (append_assoc c (b':' ∷ b) (b':' ∷ a))

if_lib_assoc :
    (b c x y z : Option (List ℕ))
    → if_lib (if_lib c c b) (if_lib c x y) z ≡ if_lib c x (if_lib b y z)
if_lib_assoc b none x y z = refl
if_lib_assoc b (some lib) x y z = refl

merged_assoc :
    (bs cs : List (List ℕ)) (a b c : Cfg)
    → merged cs a (merged cs b c) ≡ merged cs (merged bs a b) c
merged_assoc bs cs a b c =
    rw
      (
        joined_assoc a.include_path b.include_path c.include_path,
        if_lib_assoc b.webapp_lib c.webapp_lib c.webapp_lib b.webapp_lib a.webapp_lib,
        if_lib_assoc b.webapp_lib c.webapp_lib c.webapp_index b.webapp_index a.webapp_index,
      )
      refl

-- Merging is the same in either order, for three directories one below the other: what merging the
-- lowest into the merged upper two gives, merging the merged lower two into the uppermost gives.
pub pcc_merge_per_dir_assoc :
    (bs cs : List (List ℕ)) (a b c ab abc : Cfg)
    → Shows bs b
    → Shows cs c
    → pcc_merge_per_dir a b ≡ some ab
    → pcc_merge_per_dir ab c ≡ some abc
    → (bc : Cfg) × (pcc_merge_per_dir b c ≡ some bc) × (pcc_merge_per_dir a bc ≡ some abc)
pcc_merge_per_dir_assoc bs cs a b c ab abc hb hc e f =
    let (upper, is_ab) = merge-inversion bs a b ab hb e in
    let g : pcc_merge_per_dir (merged bs a b) c ≡ some abc = rw is_ab at f in
    let (lower, is_abc) = merge-inversion cs (merged bs a b) c abc hc g in
    let (fits, outer) = inner_Fits a.include_path b.include_path c.include_path upper lower in
    let (inner, k) = (pcc_merge_per_dir_lem cs b c hc).0 fits in
    let (whole, _) = (pcc_merge_per_dir_lem cs a (merged cs b c) k).0 outer in
    (merged cs b c, inner, whole ∙ ap some (merged_assoc bs cs a b c ∙ sym is_abc))
