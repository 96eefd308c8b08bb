-- ===== src/Apache/Mounted.antt =====
-- webconnect/apache1/mod_pcc.c: a request below the directory of a web library, from the directives
-- that mount it to the call that runs it.
use roadsend_php.Base.{
  ℕ, suc, ◌+◌, ◌-◌, ◌≡◌, refl, ap, ◌∙◌, List, [], ◌∷◌, ◌++◌, Option, none, some, Bool, true, false,
  not, ◌||◌, ltb, ◌==◌, length, drop, arith, length-append, append_assoc, Bool-cases, Option-cases,
  inl, inr, drop-prefix, get_elem?-append, codes,
}
use roadsend_php.Base.Ensures.{
  Ensures, Ensures-bind, Ensures-if, Ensures-any, Ensures-some, Ensures-mono,
}
use roadsend_php.Apache.{
  Cfg, pcc_create_per_dir, customize, put_ext, do_webapp_exts, iterate_exts, mount_webapp, is_ext,
}
use roadsend_php.Apache.Exts.{Shows, shown, chosen, iterate_exts_lem}
use roadsend_php.Apache.Lookup.{
  ok_status, webapp_type, is_webapp_type, check_in_lib, check_for_webapp,
}
use roadsend_php.Apache.Lookup.Check.{any_matches, try_file_in_lib-any}
use roadsend_php.Apache.Handler.{
  acquire, release, run_webapp, Webapp, Calls, is_zero, location_length, webapp_of, configured,
  settings_of, serve_webapp, uploads, serve, pcc_driver, general_handler, handle_webapp,
}

-- The directive for extensions changes nothing else.
record Keeps (old new : Cfg) : Type 0 where
  loc_kept : new.loc ≡ old.loc
  path_kept : new.include_path ≡ old.include_path
  index_kept : new.webapp_index ≡ old.webapp_index

customize-Keeps : (cfg : Cfg) → Keeps cfg (customize cfg)
unfolding customize
customize-Keeps cfg = elim (Bool-cases cfg.custom_exts) [
  | inl own ↦ rw own (record { loc_kept = refl; path_kept = refl; index_kept = refl })
  | inr default ↦ rw default (record { loc_kept = refl; path_kept = refl; index_kept = refl })
]

do_webapp_exts-Keeps : (cfg : Cfg) (ext : List ℕ) → Ensures (Keeps cfg) (do_webapp_exts cfg ext)
unfolding do_webapp_exts
do_webapp_exts-Keeps cfg ext =
    let k = customize-Keeps cfg in
    Ensures-if (Keeps cfg) (not (is_ext ext) || (cfg.num_exts == 30)) _ _
      (record { loc_kept = refl; path_kept = refl; index_kept = refl })
      (Ensures-bind (λ _. Unit {0}) (Keeps cfg) _ _
        (Ensures-any (put_ext (customize cfg).webapp_exts (customize cfg).num_exts (some ext)))
        (λ exts _. record {
          loc_kept = k.loc_kept;
          path_kept = k.path_kept;
          index_kept = k.index_kept;
        }))

iterate_exts-Keeps :
    (cfg : Cfg) (given : List (List ℕ)) → Ensures (Keeps cfg) (iterate_exts cfg given)
unfolding iterate_exts
iterate_exts-Keeps cfg [] = record { loc_kept = refl; path_kept = refl; index_kept = refl }
iterate_exts-Keeps cfg (ext ∷ given) =
    Ensures-bind (Keeps cfg) (Keeps cfg) (do_webapp_exts cfg ext) _ (do_webapp_exts-Keeps cfg ext)
      (λ next k.
        Ensures-mono (Keeps next) (Keeps cfg) (iterate_exts next given)
          (iterate_exts-Keeps next given)
          (λ last m. record {
            loc_kept = m.loc_kept ∙ k.loc_kept;
            path_kept = m.path_kept ∙ k.path_kept;
            index_kept = m.index_kept ∙ k.index_kept;
          }))

-- The slash at the end is not counted.
location_length_slash : (base : List ℕ) → location_length (base ++ b'/' ∷ []) ≡ some (length base)
unfolding location_length
location_length_slash [] = refl
location_length_slash (c ∷ base) =
    let count : length (c ∷ base ++ b'/' ∷ []) ≡ suc (length base) + 1 =
      length-append (c ∷ base) (b'/' ∷ []) in
    let last : length (c ∷ base ++ b'/' ∷ []) - 1 ≡ length (c ∷ base) + 0 = omega (arith, count) in
    let less : length (c ∷ base) + 0 ≡ length (c ∷ base) = omega arith in
    rw (last, get_elem?-append (c ∷ base) (b'/' ∷ []) 0) (ap some less)

-- The call that runs the library.
abbrev pub mounted : List ℕ → List ℕ → Option (List ℕ) → List ℕ → Webapp
mounted base lib index path = record {
  lib = some lib;
  filename = path;
  directory = base ++ b'/' ∷ [];
  index_file = index;
}

module _ (base lib path : List ℕ) (index : Option (List ℕ)) (given : List (List ℕ))
    (calls : Calls) where
  abbrev filename : List ℕ
  filename = base ++ path

  serve-mounted :
      (cfg : Cfg)
      → cfg.loc ≡ base ++ b'/' ∷ []
      → cfg.webapp_lib ≡ some lib
      → cfg.webapp_index ≡ index
      → cfg.include_path ≡ none
      → is_zero (calls.parse (settings_of calls)) ≡ true
      → serve calls cfg filename true
        ≡ some (
          calls.webapp_status (mounted base lib index path),
          (uploads calls ++ run_webapp (mounted base lib index path) ∷ []) ++ release ∷ [],
        )
  unfolding serve serve_webapp webapp_of configured
  serve-mounted cfg at_loc at_lib at_index at_path parsed =
      let inside : ltb (length filename) (length base) ≡ false =
        ground (arith, length-append base path) in
      let whole : length base ≡ length base + 0 = omega arith in
      let rest : drop (length base) filename ≡ path =
        ap (λ n. drop n filename) whole ∙ drop-prefix base path 0 in
      rw
        (
          parsed,
          at_loc,
          location_length_slash base,
          inside,
          rest,
          at_lib,
          at_index,
          at_path,
          append_assoc (uploads calls) (run_webapp (mounted base lib index path) ∷ [])
              (release ∷ []),
        )
        refl

  check-mounted :
      (exts : List (List ℕ)) (cfg : Cfg) (stat : Option Bool) (type : Option (List ℕ))
      → Shows exts (mount_webapp cfg lib index)
      → any_matches exts filename ≡ true
      → is_webapp_type type ≡ false
      → check_for_webapp
          (mount_webapp cfg lib index)
          stat
          (record { filename = filename; content_type = type })
        ≡ some (ok_status, record { filename = filename; content_type = some webapp_type })
  unfolding mount_webapp check_for_webapp check_in_lib
  check-mounted exts cfg stat type h matching untyped =
      let searched = try_file_in_lib-any exts (mount_webapp cfg lib index) filename h in
      rw (untyped, searched, matching) refl

  -- Where a web library is mounted for a directory, with a list of extensions or the default, a
  -- request for a file below whose name matches one of them, and that is not typed yet, is typed as
  -- one for the library; its handler, when Apache reads the request and libapreq parses it, runs the
  -- library with the name below the directory, and with the index page of the directive.
  pub mounted_lem :
      (stat : Option Bool) (type : Option (List ℕ)) (initialized : Bool)
      → any_matches (shown (codes ".php" ∷ []) (chosen given)) filename ≡ true
      → is_webapp_type type ≡ false
      → is_zero calls.setup_client_block ≡ true
      → is_zero (calls.parse (settings_of calls)) ≡ true
      → (cfg : Cfg) × (iterate_exts (pcc_create_per_dir (some (base ++ b'/' ∷ []))) given
          ≡ some cfg)
        × (check_for_webapp
              (mount_webapp cfg lib index)
              stat
              (record { filename = filename; content_type = type })
            ≡ some (ok_status, record { filename = filename; content_type = some webapp_type }))
        × (handle_webapp calls (mount_webapp cfg lib index) filename initialized
            ≡ some (
              calls.webapp_status (mounted base lib index path),
              acquire ∷ pcc_driver initialized
                  ++ ((uploads calls ++ run_webapp (mounted base lib index path) ∷ [])
                      ++ release ∷ []),
              true,
            ))
  unfolding pcc_create_per_dir mount_webapp handle_webapp general_handler
  mounted_lem stat type initialized matching untyped set_up parsed =
      let start = pcc_create_per_dir (some (base ++ b'/' ∷ [])) in
      let (cfg, e, h) = iterate_exts_lem (some (base ++ b'/' ∷ [])) given in
      let k = Ensures-some (Keeps start) _ cfg (iterate_exts-Keeps start given) e in
      let exts = shown (codes ".php" ∷ []) (chosen given) in
      let at_index : (mount_webapp cfg lib index).webapp_index ≡ index = elim (Option-cases index) [
        | inl none_given ↦ rw none_given k.index_kept
        | inr (page, given_page) ↦ rw given_page refl
      ] in
      let mounted_Shows : Shows exts (mount_webapp cfg lib index) = record {
        rest = h.rest;
        split = h.split;
        size = h.size;
        count = h.count;
      } in
      (
        cfg,
        e,
        check-mounted exts cfg stat type mounted_Shows matching untyped,
        rw
            (
              set_up,
              serve-mounted (mount_webapp cfg lib index) k.loc_kept refl at_index k.path_kept
                  parsed,
            )
            refl,
      )
