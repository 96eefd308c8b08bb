-- ===== src/Apache2.antt =====
-- webconnect/apache2/mod_pcc2.c: the module for Apache 2, where it differs from that for Apache 1:
-- one handler asks for the library and for the type itself, there is no mutex, and Apache is not asked
-- for the block of the client. The configuration and the extensions are the code of mod_pcc.c.
pub mod Dispatch
mod Tests
use roadsend_php.Base.{
  List, [], ◌∷◌, Option, none, some, Bool, true, false, ◌||◌, ◌++◌, ltb, length, if◌then◌else◌,
  ◌>>=◌, codes,
}
use roadsend_php.Base.Int.{ℤ}
use roadsend_php.Base.{ℕ}
use roadsend_php.Apache.{Cfg}
use roadsend_php.Apache.Lookup.{ok_status, declined, same_text, try_file_in_lib, try_lib_index}
use roadsend_php.Apache.Handler.{
  Event, initialize, run_url, run_webapp, Calls, is_zero, location_length, webapp_of, configured,
  settings_of, uploads,
}

-- `PCC_MAGIC_TYPE`
abbrev pub pcc_type : List ℕ
pcc_type = codes "application/x-httpd-pcc"

-- `pcc_startup`, with whether the data of the pool is set: Apache calls it twice, and the second
-- call starts the runtime.
pub pcc_startup : Bool → Bool × List Event
pcc_startup data_set = if data_set then (true, initialize ∷ []) else (true, [])

pub check_for_webapp : Cfg → Option Bool → List ℕ → Option ℤ
check_for_webapp cfg stat filename = elim cfg.webapp_lib [
  | none ↦ some declined
  | some lib ↦ try_file_in_lib (some cfg) filename >>= λ in_lib.
      some (if in_lib || try_lib_index cfg stat then ok_status else declined)
]

module _ (calls : Calls) (cfg : Cfg) (filename : List ℕ) where
  -- The branch for a web library.
  pub run_lib : Option (ℤ × List Event)
  run_lib = do
    loc_len ← location_length cfg.loc
    let app = webapp_of cfg filename loc_len
    if ltb (length filename) loc_len
        then some (declined, [])
        else some (calls.webapp_status app, run_webapp app ∷ [])

  pub general_handler : Bool → Option (ℤ × List Event)
  general_handler is_webapp =
      let served = (if is_webapp then run_lib else some (calls.url_status, run_url ∷ [])) >>= λ x.
      some (x.0, configured cfg ++ (uploads calls ++ x.1)) in
      let status = calls.parse (settings_of calls) in
      if is_zero status then served else some (status, configured cfg)

  pub handle_execute : Option (ℤ × List Event)
  handle_execute = general_handler false

  pub handle_webapp : Option (ℤ × List Event)
  handle_webapp = general_handler true

  pub pcc_handler : Option Bool → List ℕ → Option (ℤ × List Event)
  pcc_handler stat handler = do
    status ← check_for_webapp cfg stat filename
    let other = if same_text handler pcc_type then handle_execute else some (declined, [])
    if is_zero status then handle_webapp else other
