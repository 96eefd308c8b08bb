-- ===== src/Apache/Tests.antt =====
-- webconnect/apache1/mod_pcc.c on concrete configurations and requests.
use roadsend_php.Base.{ℕ, ◌≡◌, ◌↔◌, refl, List, [], ◌∷◌, ◌++◌, none, some, Bool, true, false, codes}
use roadsend_php.Base.Int.{ℤ, pos}
use roadsend_php.Apache.{
  Cfg, pcc_create_per_dir, pcc_merge_per_dir, merge_paths, join_paths, copy_exts, put_ext,
  iterate_exts, mount_webapp, is_ext, pcc_apache_flag_handler, pcc_apache_value_handler,
}
use roadsend_php.Apache.Exts.{Shows, create-Shows, iterate_exts_lem, shown, chosen}
use roadsend_php.Apache.Merge.{Fits, merged, pcc_merge_per_dir_lem}
use roadsend_php.Apache.Merge.Order.{pcc_merge_per_dir_assoc}
use roadsend_php.Apache.Lookup.{
  ok_status, webapp_type, is_webapp_type, check_for_webapp, match_extension, strstr, begins,
}
use roadsend_php.Apache.Lookup.Match.{EndsIn, match_extension_iff}
use roadsend_php.Apache.Handler.{
  Event, acquire, release, run_webapp, Calls, is_zero, general_handler, handle_webapp, uploads,
  pcc_driver,
}
use roadsend_php.Apache.Handler.Mutex.{IsGuarded, general_handler-IsGuarded}
use roadsend_php.Apache.Mounted.{mounted, mounted_lem}
use roadsend_php.Apache.Lookup.Check.{any_matches}

-- A directory with an include path.
abbrev directory_with : List ℕ → List ℕ → Cfg
directory_with loc path = record (pcc_create_per_dir (some loc)) { include_path = some path }

abbrev top : Cfg
top = directory_with (codes "/") (codes "a")

abbrev middle : Cfg
middle = directory_with (codes "/m/") (codes "bbb")

abbrev bottom : Cfg
bottom = directory_with (codes "/m/n/") (codes "/usr/lib")

abbrev php : List (List ℕ)
php = codes ".php" ∷ []

directory-Shows : (loc path : List ℕ) → Shows php (directory_with loc path)
directory-Shows loc path =
    let h = create-Shows (some loc) in
    record { rest = h.rest; split = h.split; size = h.size; count = h.count }

pcc_merge_per_dir_lem_example :
    (Fits (some (codes "bbb")) (some (codes "a"))
      → (pcc_merge_per_dir top middle ≡ some (merged php top middle))
        × Shows php (merged php top middle))
    × (¬ (Fits (some (codes "bbb")) (some (codes "a"))) → pcc_merge_per_dir top middle ≡ none)
pcc_merge_per_dir_lem_example =
    pcc_merge_per_dir_lem php top middle (directory-Shows (codes "/m/") (codes "bbb"))

-- A path that is not longer than that above leaves its buffer.
short_path : pcc_merge_per_dir middle top ≡ none
unfolding pcc_merge_per_dir merge_paths join_paths pcc_create_per_dir
short_path = refl

upper_two : pcc_merge_per_dir top middle ≡ some (merged php top middle)
unfolding pcc_merge_per_dir merge_paths join_paths copy_exts put_ext pcc_create_per_dir
upper_two = refl

all_three :
    pcc_merge_per_dir (merged php top middle) bottom
    ≡ some (merged php (merged php top middle) bottom)
unfolding pcc_merge_per_dir merge_paths join_paths copy_exts put_ext pcc_create_per_dir
all_three = refl

pcc_merge_per_dir_assoc_example :
    (bc : Cfg) × (pcc_merge_per_dir middle bottom ≡ some bc)
    × (pcc_merge_per_dir top bc ≡ some (merged php (merged php top middle) bottom))
pcc_merge_per_dir_assoc_example =
    pcc_merge_per_dir_assoc php php top middle bottom _ _
      (directory-Shows (codes "/m/") (codes "bbb"))
      (directory-Shows (codes "/m/n/") (codes "/usr/lib")) upper_two all_three

abbrev given : List (List ℕ)
given = codes ".inc" ∷ codes "x" ∷ codes ".php5" ∷ []

iterate_exts_lem_example :
    (cfg : Cfg) × (iterate_exts (pcc_create_per_dir none) given ≡ some cfg)
    × Shows (shown php (chosen given)) cfg
iterate_exts_lem_example = iterate_exts_lem none given

given_run : shown php (chosen given) ≡ codes ".inc" ∷ codes ".php5" ∷ []
unfolding shown chosen is_ext
given_run = refl

match_extension_iff_example :
    (match_extension (codes "/a.php") (codes ".php") ≡ true)
    ↔ EndsIn (codes "/a.php") (codes ".php")
match_extension_iff_example = match_extension_iff (codes "/a.php") (codes ".php")

-- The first occurrence is not at the end.
twice_run : match_extension (codes "/a.php.php") (codes ".php") ≡ false
unfolding match_extension strstr begins
twice_run = refl

abbrev calls : Calls
calls = record {
  setup_client_block = pos 0;
  file_uploads = pos 1;
  upload_tmp_dir = none;
  upload_max_filesize = pos 2;
  parse = λ s. pos 0;
  has_upload = false;
  url_status = pos 0;
  webapp_status = λ app. pos 7;
}

general_handler-IsGuarded_example :
    (x : ℤ × List Event × Bool) × (general_handler calls bottom (codes "/m/n/i.php") false true
      ≡ some x)
    × IsGuarded calls bottom (codes "/m/n/i.php") x
unfolding pcc_create_per_dir
general_handler-IsGuarded_example =
    general_handler-IsGuarded calls bottom (codes "/m/n/i.php") false true (λ _ e. cc)

flag_run :
    pcc_apache_flag_handler (λ s t. true) top (codes "include_path") (codes "On")
    ≡ record top { include_path = some (codes "1") }
unfolding pcc_apache_flag_handler pcc_apache_value_handler
flag_run = refl

mounted_lem_example :
    (cfg : Cfg) × (iterate_exts (pcc_create_per_dir (some (codes "/w/"))) [] ≡ some cfg)
    × (check_for_webapp
          (mount_webapp cfg (codes "lib") none)
          none
          (record { filename = codes "/w/i.php"; content_type = none })
        ≡ some (ok_status, record { filename = codes "/w/i.php"; content_type = some webapp_type }))
    × (handle_webapp calls (mount_webapp cfg (codes "lib") none) (codes "/w/i.php") false
        ≡ some (
          pos 7,
          acquire ∷ pcc_driver false
              ++ ((uploads calls
                    ++ run_webapp (mounted (codes "/w") (codes "lib") none (codes "/i.php")) ∷ [])
                  ++ release ∷ []),
          true,
        ))
unfolding is_webapp_type is_zero any_matches shown chosen match_extension strstr begins
mounted_lem_example =
    mounted_lem (codes "/w") (codes "lib") (codes "/i.php") none [] calls none none false refl refl
      refl refl
