-- ===== src/Release/Trial/Order.antt =====
-- The order in which `run_smoke` starts commands.
use rpmz.Base.{
  ◌≡◌, refl, sym, ap, ◌∙◌, Bool, true, false, Option, none, some, List, [], ◌∷◌, ◌++◌, map,
  append_assoc, Text, codes, text_eq, set_eq, Outcome, ok, raise,
}
use rpmz.Release.Assets.{Manifest, expected_assets}
use rpmz.Release.Smoke.{Arguments}
use rpmz.Release.Trial.{
  Environment, Command, ghr_install, rpmz_version, compatibility_version, native_audit,
  release_assets, download_assets, SmokeError, command_failed, directory_exists, not_on_path,
  not_one_layout, other_binaries, unreadable_assets, assets_differ, only_root, lone_rpmz, layout,
  Machine, Ran, Part, continue, both_parts, require, look, demand, lifted, command, prepare,
  install, find_rpmz, check_versions, one_root, require_each, check_layout, check_assets,
  check_download, run_smoke,
}

-- Which command it is, less its arguments.
pub data Stage : Type 0 where
  installs checks_version checks_compatibility audits lists_assets downloads : Stage

unfoldable pub stage : Command → Stage
stage (ghr_install spec env) = installs
stage (rpmz_version path env) = checks_version
stage (compatibility_version path env) = checks_compatibility
stage (native_audit root env) = audits
stage (release_assets repo tag env) = lists_assets
stage (download_assets repo tag directory archive env) = downloads

-- A run that ends well has started these commands, and one that fails a first part of them.
unfoldable pub Follows : {World A : Type 0} → List Stage → Ran World A → Type 0
Follows stages (started, w, ok a) = map stage started ≡ stages
Follows stages (started, w, raise e) = (rest : List Stage) × (map stage started ++ rest ≡ stages)

map-append : (xs ys : List Command) → map stage (xs ++ ys) ≡ map stage xs ++ map stage ys
map-append [] ys = refl
map-append (x ∷ xs) ys = ap (◌∷◌ (stage x)) (map-append xs ys)

continue-Follows :
    {World A B : Type 0} (ss ts : List Stage) (r : Ran World A) (f : A → Part World B)
    → Follows ss r
    → ((a : A) (w : World) → Follows ts (f a w))
    → Follows (ss ++ ts) (continue r f)
unfolding Follows continue
continue-Follows ss ts (started, w, raise e) f (rest, h) k =
    (rest ++ ts, sym (append_assoc (map stage started) rest ts) ∙ ap (λ l. l ++ ts) h)
continue-Follows {World = World} {B = B} ss ts (started, w, ok a) f h k = go (f a w) (k a w)
  where
    go :
        (r : Ran World B)
        → Follows ts r
        → Follows (ss ++ ts) (let (more, w', o) = r in (started ++ more, w', o))
    go (more, w', ok b) e =
        map-append started more ∙ ap (λ l. map stage started ++ l) e ∙ ap (λ l. l ++ ts) h
    go (more, w', raise x) (rest, e) = (
      rest,
      ap (λ l. l ++ rest) (map-append started more)
          ∙ append_assoc (map stage started) (map stage more) rest
          ∙ ap (λ l. map stage started ++ l) e
          ∙ ap (λ l. l ++ ts) h,
    )

-- A part of the run that starts these commands, whatever the machine.
abbrev Starts : {World A : Type 0} → List Stage → Part World A → Type 0
Starts {World = World} stages part = (w : World) → Follows stages (part w)

both_parts-Starts :
    {World A B : Type 0} (ss ts : List Stage) (m : Part World A) (f : A → Part World B)
    → Starts ss m
    → ((a : A) → Starts ts (f a))
    → Starts (ss ++ ts) (both_parts m f)
unfolding both_parts
both_parts-Starts ss ts m f h k w = continue-Follows ss ts (m w) f (h w) k

require-Starts :
    {World : Type 0} (condition : World → Bool) (e : SmokeError) → Starts [] (require condition e)
unfolding Follows
require-Starts {World = World} condition e w = go (condition w)
  where
    go :
        (b : Bool)
        → Follows {World = World} {A = Unit {0}} []
            (elim b [ true ↦ ([], w, ok tt) | false ↦ ([], w, raise e) ])
    go true = refl
    go false = ([], refl)

demand-Starts : {World A : Type 0} (f : World → Option A) (e : SmokeError) → Starts [] (demand f e)
unfolding Follows
demand-Starts {World = World} {A = A} f e w = go (f w)
  where
    go :
        (o : Option A)
        → Follows {World = World} {A = A} []
            (elim o [ none ↦ ([], w, raise e) | some a ↦ ([], w, ok a) ])
    go none = ([], refl)
    go (some a) = refl

look-Starts : {World A : Type 0} (f : World → A) → Starts [] (look f)
unfolding Follows
look-Starts f w = refl

lifted-Starts :
    {World A E : Type 0} (g : E → SmokeError) (o : World → Outcome E A) → Starts [] (lifted g o)
unfolding Follows
lifted-Starts {World = World} {A = A} {E = E} g o w = go (o w)
  where
    go :
        (r : Outcome E A)
        → Follows {World = World} {A = A} []
            (elim r [ ok a ↦ ([], w, ok a) | raise e ↦ ([], w, raise (g e)) ])
    go (ok a) = refl
    go (raise e) = ([], refl)

module _ {World : Type 0} (machine : Machine World) where
  command-Starts : (c : Command) → Starts (stage c ∷ []) (command machine c)
  unfolding command Follows
  command-Starts c w = go (machine.execute c w).0 (machine.execute c w).1
    where
      go :
          (w' : World) (result : Option (Text × Text))
          → Follows {World = World} {A = Text × Text} (stage c ∷ []) (elim result [
            | none ↦ (c ∷ [], w', raise command_failed)
            | some output ↦ (c ∷ [], w', ok output)
          ])
      go w' none = ([], refl)
      go w' (some output) = refl

  prepare-Starts : (prefix : Text) → Starts [] (prepare machine prefix)
  unfolding prepare Follows
  prepare-Starts prefix w = go (machine.make_directories prefix w)
    where
      go :
          (o : Option World)
          → Follows {World = World} {A = Unit {0}} []
              (elim o [ none ↦ ([], w, raise directory_exists) | some w' ↦ ([], w', ok tt) ])
      go none = ([], refl)
      go (some w') = refl

  install-Starts :
      (args : Arguments) (archive_name : Text) (env : Environment)
      → Starts (installs ∷ []) (install machine args archive_name env)
  unfolding install stage
  install-Starts args archive_name env =
      both_parts-Starts (installs ∷ []) [] _ _
        (command-Starts (ghr_install (args.repo ++ codes "@" ++ args.tag) env))
        (λ (out, err). require-Starts _ _)

  find_rpmz-Starts : (env : Environment) → Starts [] (find_rpmz machine env)
  unfolding find_rpmz
  find_rpmz-Starts env =
      both_parts-Starts [] [] _ _ (demand-Starts (machine.which env.path) not_on_path) (λ rpmz_path.
        both_parts-Starts [] [] _ _
          (require-Starts
            (λ w.
              text_eq (machine.resolve rpmz_path w)
                (machine.resolve (env.bin_dir ++ codes "/rpmz") w))
            not_on_path)
          (λ _. look-Starts (λ w. rpmz_path)))

  check_versions-Starts :
      (args : Arguments) (rpmz_path : Text) (env : Environment)
      → Starts
          (checks_version ∷ checks_compatibility ∷ [])
          (check_versions machine args rpmz_path env)
  unfolding check_versions stage
  check_versions-Starts args rpmz_path env =
      both_parts-Starts (checks_version ∷ []) (checks_compatibility ∷ []) _ _
        (command-Starts (rpmz_version rpmz_path env))
        (λ (out, err).
          both_parts-Starts [] (checks_compatibility ∷ []) _ _ (require-Starts _ _) (λ _.
            both_parts-Starts (checks_compatibility ∷ []) [] _ _
              (command-Starts (compatibility_version rpmz_path env))
              (λ (out, err). require-Starts _ _)))

  require_each-Starts :
      (root : Text) (relatives : List Text) → Starts [] (require_each machine root relatives)
  unfolding require_each
  require_each-Starts root [] = look-Starts _
  require_each-Starts root (relative ∷ rest) =
      both_parts-Starts [] [] _ _ (require-Starts _ _) (λ _. require_each-Starts root rest)

  check_layout-Starts : (env : Environment) → Starts [] (check_layout machine env)
  unfolding check_layout one_root
  check_layout-Starts env =
      both_parts-Starts [] [] _ _
        (demand-Starts (λ w. only_root (machine.install_roots env.tool_dir w)) not_one_layout)
        (λ root. both_parts-Starts [] [] _ _ (look-Starts (machine.bin_entries root)) (λ entries.
          both_parts-Starts [] [] _ _
            (require-Starts (λ w. lone_rpmz entries) (other_binaries entries))
            (λ _.
              both_parts-Starts [] [] _ _ (require_each-Starts root layout)
                (λ _. look-Starts (λ w. root)))))

  check_assets-Starts :
      (args : Arguments) (m : Manifest) (env : Environment)
      → Starts (lists_assets ∷ []) (check_assets machine args m env)
  unfolding check_assets stage
  check_assets-Starts args m env =
      both_parts-Starts (lists_assets ∷ []) [] _ _
        (command-Starts (release_assets args.repo args.tag env))
        (λ (out, err).
          both_parts-Starts [] [] _ _
            (demand-Starts (λ w. machine.asset_names out) unreadable_assets)
            (λ actual.
              require-Starts (λ w. set_eq actual (expected_assets m args.version))
                (assets_differ (expected_assets m args.version) actual)))

  check_download-Starts :
      (args : Arguments) (download_dir archive_name : Text) (env : Environment)
      → Starts (downloads ∷ []) (check_download machine args download_dir archive_name env)
  unfolding check_download stage
  check_download-Starts args download_dir archive_name env =
      both_parts-Starts (downloads ∷ []) [] _ _
        (command-Starts (download_assets args.repo args.tag download_dir archive_name env))
        (λ _. lifted-Starts _ _)

  run_smoke-Starts :
      (args : Arguments) (m : Manifest) (prefix : Text)
      → Starts
          (installs ∷ checks_version ∷ checks_compatibility ∷ audits ∷ lists_assets ∷ downloads
            ∷ [])
          (run_smoke machine args m prefix)
  unfolding run_smoke stage
  run_smoke-Starts args m prefix = both_parts-Starts [] _ _ _ (lifted-Starts _ _) (λ _.
      both_parts-Starts [] _ _ _ (prepare-Starts prefix) (λ _.
        both_parts-Starts [] _ _ _ (look-Starts _) (λ env.
          both_parts-Starts (installs ∷ []) _ _ _
            (install-Starts args (m.binary_archive args.version args.platform) env)
            (λ _. both_parts-Starts [] _ _ _ (find_rpmz-Starts env) (λ rpmz_path.
              both_parts-Starts (checks_version ∷ checks_compatibility ∷ []) _ _ _
                (check_versions-Starts args rpmz_path env)
                (λ _. both_parts-Starts [] _ _ _ (check_layout-Starts env) (λ root.
                  both_parts-Starts (audits ∷ []) _ _ _ (command-Starts (native_audit root env))
                    (λ _.
                      both_parts-Starts (lists_assets ∷ []) (downloads ∷ []) _ _
                        (check_assets-Starts args m env)
                        (λ _.
                          check_download-Starts args (prefix ++ codes "/downloads")
                            (m.binary_archive args.version args.platform) env)))))))))

-- On every machine a run of the smoke test that ends well has installed the release, asked for the two
-- versions, audited the installation, listed the assets and downloaded the archive, in this order and each
-- once; a run that fails has started a first part of these commands.
pub run_smoke-Follows :
    {World : Type 0} (machine : Machine World) (args : Arguments) (m : Manifest) (prefix : Text)
    (w : World)
    → Follows
        (installs ∷ checks_version ∷ checks_compatibility ∷ audits ∷ lists_assets ∷ downloads ∷ [])
        (run_smoke machine args m prefix w)
run_smoke-Follows machine args m prefix w = run_smoke-Starts machine args m prefix w
