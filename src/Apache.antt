-- ===== src/Apache.antt =====
-- webconnect/apache1/mod_pcc.c: the configuration of a directory, which the directives of a
-- configuration file set and which Apache merges with that of the directory above. The code in
-- webconnect/apache2/mod_pcc2.c is the same. A string is the list of its bytes, NULL is `none`.
pub mod Exts
pub mod Merge
pub mod Lookup
pub mod Handler
pub mod Mounted
mod Tests
use roadsend_php.Base.{
  ℕ, zero, suc, ◌+◌, List, [], ◌∷◌, ◌++◌, Option, none, some, Bool, true, false, not, ◌&&◌, ◌||◌,
  ltb, leb, ◌==◌, if◌then◌else◌, ◌>>=◌, length, get_elem?, get_or, set, replicate, codes,
}

-- `CONFIG_MODE_SERVER` and the others.
pub data Mode : Type 0 where
  server directory combo : Mode

-- `MAX_EXTS`
abbrev pub max_exts : ℕ
max_exts = 30

-- `pcc_cfg`
pub record Cfg : Type 0 where
  pub cmode : Mode
  pub loc : List ℕ
  pub include_path : Option (List ℕ)
  pub webapp_lib : Option (List ℕ)
  pub webapp_index : Option (List ℕ)
  pub webapp_exts : List (Option (List ℕ))
  pub num_exts : ℕ
  pub custom_exts : Bool

-- `cfg->webapp_exts[i] = ...`
pub put_ext : List (Option (List ℕ)) → ℕ → Option (List ℕ) → Option (List (Option (List ℕ)))
put_ext exts i ext = if ltb i (length exts) then some (set exts i ext) else none

-- The cleared array of `ap_pcalloc`.
abbrev pub no_exts : List (Option (List ℕ))
no_exts = replicate max_exts none

abbrev pub or_empty : Option (List ℕ) → List ℕ
or_empty none = []
or_empty (some s) = s

unfoldable pub pcc_create_per_dir : Option (List ℕ) → Cfg
pcc_create_per_dir dirspec = record {
  cmode = directory;
  loc = or_empty dirspec;
  include_path = none;
  webapp_lib = none;
  webapp_index = none;
  webapp_exts = set no_exts 0 (some (codes ".php"));
  num_exts = 1;
  custom_exts = false;
}

-- `sprintf(s, "%s:%s", ...)` into the buffer allocated for it.
pub join_paths : List ℕ → List ℕ → Option (List ℕ)
join_paths new parent =
    let size = 1 + length new + length new in
    let joined = new ++ b':' ∷ parent in if leb (length joined + 1) size then some joined else none

pub merge_paths : Option (List ℕ) → Option (List ℕ) → Option (Option (List ℕ))
merge_paths (some new) (some parent) = join_paths new parent >>= λ joined. some (some joined)
merge_paths none (some parent) = some (some parent)
merge_paths (some new) none = some (some new)
merge_paths none none = some none

-- The loop that copies the extensions, for so many rounds from `i` on.
pub copy_exts :
    ℕ → ℕ → List (Option (List ℕ)) → List (Option (List ℕ)) → Option (List (Option (List ℕ)))
copy_exts zero i from to = some to
copy_exts (suc rounds) i from to = do
  ext ← get_elem? from i
  next ← put_ext to i ext
  copy_exts rounds (i + 1) from next

-- `if (nconf->webapp_lib)`
abbrev pub if_lib {ℓ} : {A : Type ℓ} → Option (List ℕ) → A → A → A
if_lib none x y = y
if_lib (some lib) x y = x

pub pcc_merge_per_dir : Cfg → Cfg → Option Cfg
pcc_merge_per_dir pconf nconf = do
  path ← merge_paths nconf.include_path pconf.include_path
  exts ← copy_exts nconf.num_exts 0 nconf.webapp_exts no_exts
  some (record {
    cmode = directory;
    loc = nconf.loc;
    include_path = path;
    webapp_lib = if_lib nconf.webapp_lib nconf.webapp_lib pconf.webapp_lib;
    webapp_index = if_lib nconf.webapp_lib nconf.webapp_index pconf.webapp_index;
    webapp_exts = exts;
    num_exts = nconf.num_exts;
    custom_exts = nconf.custom_exts;
  })

-- `strcasecmp` giving 0 is a parameter.
module _ (same : List ℕ → List ℕ → Bool) where
  pub pcc_apache_value_handler : Cfg → List ℕ → List ℕ → Cfg
  pcc_apache_value_handler cfg arg1 arg2 =
      if same arg1 (codes "include_path") then record cfg { include_path = some arg2 } else cfg

  pub pcc_apache_flag_handler : Cfg → List ℕ → List ℕ → Cfg
  pcc_apache_flag_handler cfg arg1 arg2 =
      let is_one = (get_or arg2 0 0 == b'1') && (get_or arg2 1 0 == 0) in
      let bv = if same arg2 (codes "On") || is_one then b'1' else b'0' in
      pcc_apache_value_handler cfg arg1 (bv ∷ [])

-- The first test of `do_webapp_exts`, but for the room.
pub is_ext : List ℕ → Bool
is_ext ext = not (ltb (length ext) 2) && (get_or ext 0 0 == b'.')

-- `if (cfg->custom_exts == 0)`
pub customize : Cfg → Cfg
customize cfg = if cfg.custom_exts then cfg else record cfg { num_exts = 0; custom_exts = true }

pub do_webapp_exts : Cfg → List ℕ → Option Cfg
do_webapp_exts cfg ext =
    let own = customize cfg in
    let added = put_ext own.webapp_exts own.num_exts (some ext) >>= λ exts.
    some (record own { webapp_exts = exts; num_exts = own.num_exts + 1 }) in
    if not (is_ext ext) || (cfg.num_exts == max_exts) then some cfg else added

-- Apache calls it for each value of the directive in turn.
pub iterate_exts : Cfg → List (List ℕ) → Option Cfg
iterate_exts cfg [] = some cfg
iterate_exts cfg (ext ∷ exts) = do next ← do_webapp_exts cfg ext; iterate_exts next exts

pub mount_webapp : Cfg → List ℕ → Option (List ℕ) → Cfg
mount_webapp cfg lib index = record cfg {
  webapp_lib = some lib;
  webapp_index = elim index [ none ↦ cfg.webapp_index | some page ↦ some page ];
}
