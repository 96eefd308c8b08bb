-- ===== src/Apache2/Dispatch.antt =====
-- webconnect/apache2/mod_pcc2.c: its handler beside that of webconnect/apache1/mod_pcc.c.
use roadsend_php.Base.{
  ℕ, ◌≡◌, refl, ap, sym, ◌∙◌, List, [], ◌∷◌, ◌++◌, Option, none, some, Bool, true, false, ltb,
  length, if◌then◌else◌, ◌>>=◌, Bool-cases, Option-cases, inl, inr, append_assoc,
}
use roadsend_php.Base.Int.{ℤ}
use roadsend_php.Apache.{Cfg}
use roadsend_php.Apache.Handler.{
  Event, acquire, release, run_url, Calls, give_back, is_zero, location_length, configured,
  settings_of, uploads, pcc_driver, serve_webapp, serve,
}
use roadsend_php.Apache.Handler
use roadsend_php.Apache2.{run_lib, general_handler}

-- A request that is handled, with the mutex given back.
abbrev unlocked : ℤ × List Event → Option (ℤ × List Event)
unlocked x = some (x.0, x.1 ++ release ∷ [])

abbrev started : Bool → ℤ × List Event → Option (ℤ × List Event × Bool)
started initialized x = some (x.0, acquire ∷ pcc_driver initialized ++ x.1, true)

-- The same under the mutex, with the runtime initialized first.
abbrev pub under_mutex : Bool → ℤ × List Event → Option (ℤ × List Event × Bool)
under_mutex initialized x =
    some (x.0, acquire ∷ pcc_driver initialized ++ (x.1 ++ release ∷ []), true)

started_agrees :
    (initialized : Bool) (handled : Option (ℤ × List Event))
    → ((handled >>= unlocked) >>= started initialized) ≡ (handled >>= under_mutex initialized)
started_agrees initialized none = refl
started_agrees initialized (some x) = refl

module _ (calls : Calls) (cfg : Cfg) (filename : List ℕ) where
  serve_webapp-run_lib : serve_webapp calls cfg filename ≡ (run_lib calls cfg filename >>= unlocked)
  unfolding serve_webapp run_lib
  serve_webapp-run_lib = elim (Option-cases (location_length cfg.loc)) [
    | inl e ↦ rw e refl
    | inr (loc_len, e) ↦ rw e (elim (Bool-cases (ltb (length filename) loc_len)) [
      | inl t ↦ rw t refl
      | inr t ↦ rw t refl
    ])
  ]

  run_agrees :
      (is_webapp : Bool)
      → (if is_webapp
          then serve_webapp calls cfg filename
          else some (give_back calls.url_status (run_url ∷ [])))
        ≡ ((if is_webapp then run_lib calls cfg filename else some (calls.url_status, run_url ∷ []))
            >>= unlocked)
  run_agrees true = serve_webapp-run_lib
  run_agrees false = refl

  -- What is done before the web library or the file runs.
  abbrev prepared : ℤ × List Event → Option (ℤ × List Event)
  prepared x = some (x.0, configured cfg ++ (uploads calls ++ x.1))

  prepared_agrees :
      (ran : Option (ℤ × List Event))
      → ((ran >>= unlocked) >>= prepared) ≡ ((ran >>= prepared) >>= unlocked)
  prepared_agrees none = refl
  prepared_agrees (some x) =
      let last = release ∷ [] in
      ap (λ events. some (x.0, events))
        (ap (λ l. configured cfg ++ l) (sym (append_assoc (uploads calls) x.1 last))
          ∙ sym (append_assoc (configured cfg) (uploads calls ++ x.1) last))

  serve_agrees :
      (is_webapp : Bool)
      → serve calls cfg filename is_webapp
        ≡ (general_handler calls cfg filename is_webapp >>= unlocked)
  unfolding serve general_handler
  serve_agrees is_webapp = elim (Bool-cases (is_zero (calls.parse (settings_of calls)))) [
    | inl e ↦ rw e (ap (λ ran. ran >>= prepared) (run_agrees is_webapp) ∙ prepared_agrees _)
    | inr e ↦ rw e refl
  ]

  -- For a request whose block Apache sets up, the handler of mod_pcc.c fails to return where that of
  -- mod_pcc2.c does, and else has the same status and does the same in the same order, with the
  -- mutex taken and the runtime initialized before it, and the mutex given back behind it.
  pub general_handler_agrees :
      (initialized is_webapp : Bool)
      → is_zero calls.setup_client_block ≡ true
      → Handler.general_handler calls cfg filename initialized is_webapp
        ≡ (general_handler calls cfg filename is_webapp >>= under_mutex initialized)
  unfolding Handler.general_handler
  general_handler_agrees initialized is_webapp set_up =
      rw (set_up, serve_agrees is_webapp)
        (started_agrees initialized (general_handler calls cfg filename is_webapp))
