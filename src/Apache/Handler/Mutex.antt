-- ===== src/Apache/Handler/Mutex.antt =====
-- webconnect/apache1/mod_pcc.c: the mutex around a request, and a request for a web library.
use roadsend_php.Base.{
  ℕ, zero, suc, ◌+◌, ◌-◌, ◌≤◌, ◌≡◌, ◌≢◌, refl, sym, ap, ◌∙◌, List, [], ◌∷◌, ◌++◌, some, Bool, true,
  false, ltb, if◌then◌else◌, length, get_elem?, arith, append_assoc, Bool-cases, Option-cases, inl,
  inr, All, All-append,
}
use roadsend_php.Base.Int.{ℤ}
use roadsend_php.Base.Ensures.{Returns, Returns-bind, Returns-if, Returns-some}
use roadsend_php.Apache.{Cfg}
use roadsend_php.Apache.Handler.{
  Event, acquire, release, initialize, process_upload, run_url, config_directive, run_webapp, Calls,
  give_back, webapp_of, is_zero, location_length, configured, settings_of, serve_webapp, uploads,
  serve, pcc_driver, general_handler,
}

-- What is done between taking and giving back the mutex.
abbrev pub IsWork : Event → Type 0
IsWork acquire = ⊥
IsWork release = ⊥
IsWork initialize = Unit
IsWork process_upload = Unit
IsWork run_url = Unit
IsWork (config_directive key value) = Unit
IsWork (run_webapp app) = Unit

configured-IsWork : (cfg : Cfg) → All IsWork (configured cfg)
unfolding configured
configured-IsWork cfg = elim (Option-cases cfg.include_path) [
  | inl e ↦ rw e tt
  | inr (path, e) ↦ rw e (tt, tt)
]

get-Returns :
    (loc : List ℕ) (i : ℕ) → i + 1 ≤ length loc → Returns (λ _. Unit {0}) (get_elem? loc i)
get-Returns [] i le = absurd (omega arith)
get-Returns (c ∷ loc) zero le = tt
get-Returns (c ∷ loc) (suc i) le = get-Returns loc i (omega arith)

location_length-Returns : (loc : List ℕ) → loc ≢ [] → Returns (λ _. Unit {0}) (location_length loc)
unfolding location_length
location_length-Returns [] some_text = absurd (some_text refl)
location_length-Returns (c ∷ loc) some_text =
    Returns-bind _ _ (get_elem? (c ∷ loc) (length (c ∷ loc) - 1)) _
      (get-Returns (c ∷ loc) (length (c ∷ loc) - 1) (omega arith)) (λ last _. tt)

uploads-IsWork : (calls : Calls) → All IsWork (uploads calls)
unfolding uploads
uploads-IsWork calls = elim (Bool-cases calls.has_upload) [
  | inl e ↦ rw e (tt, tt)
  | inr e ↦ rw e tt
]

driver-IsWork : (initialized : Bool) → All IsWork (pcc_driver initialized)
unfolding pcc_driver
driver-IsWork true = tt
driver-IsWork false = (tt, tt)

-- Work, and then the mutex is given back.
record IsUnlocked (events : List Event) : Type 0 where
  work : List Event
  split : events ≡ work ++ release ∷ []
  is_work : All IsWork work

before-IsUnlocked :
    (done events : List Event) → All IsWork done → IsUnlocked events → IsUnlocked (done ++ events)
before-IsUnlocked done events is_work u = record {
  work = done ++ u.work;
  split = ap (λ l. done ++ l) u.split ∙ sym (append_assoc done u.work (release ∷ []));
  is_work = All-append IsWork done u.work is_work u.is_work;
}

release-IsUnlocked : IsUnlocked (release ∷ [])
release-IsUnlocked = record { work = []; split = refl; is_work = tt }

module _ (calls : Calls) (cfg : Cfg) (filename : List ℕ) where
  serve_webapp-IsUnlocked :
      cfg.loc ≢ [] → Returns (λ x. IsUnlocked x.1) (serve_webapp calls cfg filename)
  unfolding serve_webapp
  serve_webapp-IsUnlocked some_text =
      Returns-bind _ _ (location_length cfg.loc) _ (location_length-Returns cfg.loc some_text)
        (λ loc_len _.
          Returns-if _ (ltb (length filename) loc_len) _ _ (λ _. release-IsUnlocked)
            (λ _.
              before-IsUnlocked (run_webapp (webapp_of cfg filename loc_len) ∷ []) (release ∷ [])
                (tt, tt) release-IsUnlocked))

  run-IsUnlocked :
      (is_webapp : Bool)
      → (is_webapp ≡ true → cfg.loc ≢ [])
      → Returns
          (λ x. IsUnlocked x.1)
          (if is_webapp
            then serve_webapp calls cfg filename
            else some (give_back calls.url_status (run_url ∷ [])))
  run-IsUnlocked true some_text = serve_webapp-IsUnlocked (some_text refl)
  run-IsUnlocked false some_text =
      before-IsUnlocked (run_url ∷ []) (release ∷ []) (tt, tt) release-IsUnlocked

  serve-IsUnlocked :
      (is_webapp : Bool)
      → (is_webapp ≡ true → cfg.loc ≢ [])
      → Returns (λ x. IsUnlocked x.1) (serve calls cfg filename is_webapp)
  unfolding serve
  serve-IsUnlocked is_webapp some_text =
      Returns-if _ (is_zero (calls.parse (settings_of calls))) _ _
        (λ _. Returns-bind _ _ _ _ (run-IsUnlocked is_webapp some_text) (λ (x : ℤ × List Event) h.
          before-IsUnlocked (configured cfg) (uploads calls ++ x.1) (configured-IsWork cfg)
            (before-IsUnlocked (uploads calls) x.1 (uploads-IsWork calls) h)))
        (λ _.
          before-IsUnlocked (configured cfg) (release ∷ []) (configured-IsWork cfg)
            release-IsUnlocked)

  -- The mutex is taken first and given back last, once each, with the rest between.
  abbrev pub IsGuarded : ℤ × List Event × Bool → Type 0
  IsGuarded (status, events, initialized) =
      (work : List Event) × (events ≡ acquire ∷ (work ++ release ∷ [])) × All IsWork work

  -- A request is handled on each path under the mutex, whatever the calls give: it is taken first
  -- and given back last, once each; a directory of a web library has a name that is not empty.
  pub general_handler-IsGuarded :
      (initialized is_webapp : Bool)
      → (is_webapp ≡ true → cfg.loc ≢ [])
      → (x : ℤ × List Event × Bool) × (general_handler calls cfg filename initialized is_webapp
          ≡ some x)
        × IsGuarded x
  unfolding general_handler
  general_handler-IsGuarded initialized is_webapp some_text =
      let guarded : Returns IsGuarded (general_handler calls cfg filename initialized is_webapp) =
        Returns-if IsGuarded (is_zero calls.setup_client_block) _ _
          (λ _.
            Returns-bind _ IsGuarded (serve calls cfg filename is_webapp) _
              (serve-IsUnlocked is_webapp some_text)
              (λ (x : ℤ × List Event) h.
                let driver = pcc_driver initialized in
                let u = before-IsUnlocked driver x.1 (driver-IsWork initialized) h in
                (u.work, ap (λ l. acquire ∷ l) u.split, u.is_work)))
          (λ _. ([], refl, tt)) in
      Returns-some IsGuarded _ guarded
