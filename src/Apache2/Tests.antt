-- ===== src/Apache2/Tests.antt =====
-- webconnect/apache2/mod_pcc2.c on concrete requests.
use roadsend_php.Base.{◌≡◌, refl, [], ◌∷◌, ◌>>=◌, none, some, true, false, codes}
use roadsend_php.Base.Int.{pos}
use roadsend_php.Apache.{Cfg, pcc_create_per_dir}
use roadsend_php.Apache.Lookup.{try_file_in_lib, exts_loop, match_extension, strstr, begins}
use roadsend_php.Apache.Handler
use roadsend_php.Apache.Handler.{
  Calls, process_upload, run_webapp, is_zero, location_length, webapp_of, configured, uploads,
}
use roadsend_php.Apache2.{
  pcc_type, pcc_handler, pcc_startup, check_for_webapp, handle_webapp, general_handler, run_lib,
}
use roadsend_php.Apache2.Dispatch.{under_mutex, general_handler_agrees}

abbrev calls : Calls
calls = record {
  setup_client_block = pos 0;
  file_uploads = pos 0;
  upload_tmp_dir = none;
  upload_max_filesize = pos 2;
  parse = λ s. pos 0;
  has_upload = true;
  url_status = pos 0;
  webapp_status = λ app. pos 7;
}

abbrev site : Cfg
site = pcc_create_per_dir (some (codes "/w/"))

-- A directory with a web library.
abbrev mounted_site : Cfg
mounted_site = record site { webapp_lib = some (codes "lib") }

general_handler_agrees_example :
    Handler.general_handler calls mounted_site (codes "/w/i.php") false true
    ≡ (general_handler calls mounted_site (codes "/w/i.php") true >>= under_mutex false)
unfolding is_zero
general_handler_agrees_example =
    general_handler_agrees calls mounted_site (codes "/w/i.php") false true refl

-- The library runs with the name below the directory.
library_run :
    pcc_handler calls mounted_site (codes "/w/i.php") none pcc_type
    ≡ some (
      pos 7,
      process_upload
          ∷ run_webapp (record {
            lib = some (codes "lib");
            filename = codes "/i.php";
            directory = codes "/w/";
            index_file = none;
          })
          ∷ [],
    )
unfolding pcc_handler check_for_webapp handle_webapp general_handler run_lib location_length
    webapp_of configured uploads is_zero try_file_in_lib exts_loop match_extension strstr begins
    pcc_create_per_dir
library_run = refl

first_startup : pcc_startup false ≡ (true, [])
unfolding pcc_startup
first_startup = refl
