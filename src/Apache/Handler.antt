-- ===== src/Apache/Handler.antt =====
-- webconnect/apache1/mod_pcc.c: running a file or a web library for a request. What the code calls
-- of Apache, of libapreq and of the runtime is a parameter or an event; messages that are only
-- logged are left out.
pub mod Mutex
use roadsend_php.Base.{
  ℕ, ◌+◌, ◌-◌, List, [], ◌∷◌, ◌++◌, Option, none, some, Bool, true, false, ltb, ◌==◌, if◌then◌else◌,
  ◌>>=◌, length, get_elem?, drop, codes,
}
use roadsend_php.Base.Int.{ℤ, pos, negsuc}
use roadsend_php.Apache.{Cfg}
use roadsend_php.Apache.Lookup.{ok_status, declined}

-- What the code sets of `ApacheRequest`.
pub record Settings : Type 0 where
  pub disable_uploads : Bool
  pub temp_dir : Option (List ℕ)
  pub post_max : ℤ

-- A call of `run_webapp`, but for the request.
pub record Webapp : Type 0 where
  pub lib : Option (List ℕ)
  pub filename : List ℕ
  pub directory : List ℕ
  pub index_file : Option (List ℕ)

pub data Event : Type 0 where
  acquire release initialize process_upload run_url : Event
  config_directive : List ℕ → List ℕ → Event
  run_webapp : Webapp → Event

-- What the calls of a request give; `file_uploads` and the next two are the settings of php.ini.
pub record Calls : Type 0 where
  pub setup_client_block : ℤ
  pub file_uploads : ℤ
  pub upload_tmp_dir : Option (List ℕ)
  pub upload_max_filesize : ℤ
  pub parse : Settings → ℤ
  pub has_upload : Bool
  pub url_status : ℤ
  pub webapp_status : Webapp → ℤ

-- Whether an `int` is 0, as `OK` is.
unfoldable pub is_zero : ℤ → Bool
is_zero (pos n) = n == 0
is_zero (negsuc n) = false

-- `loc_len`: a slash at the end is not counted; without a byte in front of the NUL, the code reads
-- the byte before the string.
unfoldable pub location_length : List ℕ → Option ℕ
location_length [] = none
location_length (c ∷ loc) = do
  last ← get_elem? (c ∷ loc) (length (c ∷ loc) - 1)
  some (if last == b'/' then length (c ∷ loc) - 1 else length (c ∷ loc))

unfoldable pub webapp_of : Cfg → List ℕ → ℕ → Webapp
webapp_of cfg filename loc_len = record {
  lib = cfg.webapp_lib;
  filename = drop loc_len filename;
  directory = cfg.loc;
  index_file = cfg.webapp_index;
}

-- `if (cfg->include_path)`
unfoldable pub configured : Cfg → List Event
configured cfg = elim cfg.include_path [
  | none ↦ []
  | some path ↦ config_directive (codes "include_path") path ∷ []
]

pub settings_of : Calls → Settings
settings_of calls = record {
  disable_uploads = is_zero calls.file_uploads;
  temp_dir = calls.upload_tmp_dir;
  post_max = calls.upload_max_filesize;
}

-- `pcc_driver`: the runtime is initialized by the first request.
pub pcc_driver : Bool → List Event
pcc_driver initialized = if initialized then [] else initialize ∷ []

-- `if (upload)`
unfoldable pub uploads : Calls → List Event
uploads calls = if calls.has_upload then process_upload ∷ [] else []

-- The end of `general_handler`, which both branches reach.
abbrev pub give_back : ℤ → List Event → ℤ × List Event
give_back retval done = (retval, done ++ release ∷ [])

module _ (calls : Calls) (cfg : Cfg) (filename : List ℕ) where
  -- The branch for a web library, with what stands behind it.
  unfoldable pub serve_webapp : Option (ℤ × List Event)
  serve_webapp = do
    loc_len ← location_length cfg.loc
    let app = webapp_of cfg filename loc_len
    if ltb (length filename) loc_len
        then some (declined, release ∷ [])
        else some (give_back (calls.webapp_status app) (run_webapp app ∷ []))

  -- From the include path to the end.
  unfoldable pub serve : Bool → Option (ℤ × List Event)
  serve is_webapp =
      let served =
        (if is_webapp then serve_webapp else some (give_back calls.url_status (run_url ∷ [])))
        >>= λ x. some (x.0, configured cfg ++ (uploads calls ++ x.1)) in
      let status = calls.parse (settings_of calls) in
      if is_zero status then served else some (status, configured cfg ++ release ∷ [])

  -- The status, what was done in order, and whether the runtime is initialized then.
  unfoldable pub general_handler : Bool → Bool → Option (ℤ × List Event × Bool)
  general_handler initialized is_webapp =
      let handled =
        serve is_webapp >>= λ x. some (x.0, acquire ∷ pcc_driver initialized ++ x.1, true) in
      if is_zero calls.setup_client_block
      then handled
      else some (calls.setup_client_block, acquire ∷ release ∷ [], initialized)

  pub handle_execute : Bool → Option (ℤ × List Event × Bool)
  handle_execute initialized = general_handler initialized false

  unfoldable pub handle_webapp : Bool → Option (ℤ × List Event × Bool)
  handle_webapp initialized = general_handler initialized true
