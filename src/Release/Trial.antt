-- ===== src/Release/Trial.antt =====
-- `run_smoke` of scripts/release-smoke.py. What the commands do to the machine, and what is then read from its
-- files, is a parameter.
use rpmz.Base.{
  ℕ, zero, suc, ◌+◌, ◌-◌, ◌*◌, ◌/◌, ◌%◌, ◌≤◌, ◌<◌, String, ◌≡◌, refl, sym, ap, ◌∙◌, subst, ◌≢◌, ◌↔◌,
  ◌⊎◌, inl, inr, Bool, true, false, not, ◌&&◌, ◌||◌, Option, none, some, List, [], ◌∷◌, ◌++◌, map,
  append_assoc, append-nil, arith, ltb, leb, ◌==◌, if◌then◌else◌, ==_iff, ==_refl, Bool-cases,
  Option-cases, List-cases, and-true, or-true, not-true, length, get_elem?, take, drop, replicate,
  any, every, All, In, here, there, In-cons, not-In-nil, In-append_left, In-append_right,
  In-append_cases, length-append, length-drop, length-take_of_le, length-replicate,
  take-append-drop, if-cases, All-append, All-imp, every-All, length-map, Text, codes, texts,
  text_eq, text_eq_iff, text_eq_refl, starts_with, starts_with-append, starts_with-eq, ends_with,
  contains, is_space, lstrip, rstrip, strip, split, join, lower, mem, subset, set_eq, mem_self,
  mem-cons, mem-append, mem-subset, subset_intro, set_eq_iff, Outcome, ok, raise, ◌>>=◌, ◌>>◌,
  guard, >>=-eq-ok, guard-eq-ok, for_each, then-eq-ok, >>-eq-ok, for_each-In, for_each-All,
  for_each-guard, for_each_intro, is_digit, is_word, starts_name, is_hex, drop_while, cut,
  take_while, take_while-append-drop_while, after, word_ends, search, find_all, is_some, match_word,
  expand,
}
pub mod Order
use rpmz.Release.Assets.{Manifest, expected_assets}
use rpmz.Release.Smoke.{Arguments, ArgumentError, validate_arguments}
use rpmz.Release.Sidecar.{ChecksumError, verify_checksum}

-- `env.update(...)`: the directories of ghr and the search path
pub record Environment : Type 0 where
  pub tool_dir : Text
  pub bin_dir : Text
  pub cache_dir : Text
  pub path : Text

-- The methods of `CommandRunner`, with their arguments.
pub data Command : Type 0 where
  ghr_install : Text → Environment → Command
  rpmz_version : Text → Environment → Command
  compatibility_version : Text → Environment → Command
  native_audit : Text → Environment → Command
  release_assets : Text → Text → Environment → Command
  download_assets : Text → Text → Text → Text → Environment → Command

pub data SmokeError : Type 0 where
  bad_arguments : ArgumentError → SmokeError
  directory_exists : SmokeError
  command_failed : SmokeError
  selected_otherwise : Text → SmokeError
  not_on_path : SmokeError
  wrong_version : SmokeError
  wrong_compatibility_version : SmokeError
  not_one_layout : SmokeError
  other_binaries : List Text → SmokeError
  lacks : Text → SmokeError
  unreadable_assets : SmokeError
  assets_differ : List Text → List Text → SmokeError
  bad_checksum : ChecksumError → SmokeError

-- The machine: how a command changes it and what it prints (standard output and errors), and what can be
-- read from it.
pub record Machine (World : Type 0) : Type 0 where
  -- `None` is a command that fails.
  pub execute : Command → World → World × Option (Text × Text)
  -- `mkdir(parents=True, exist_ok=False)` of the four directories
  pub make_directories : Text → World → Option World
  pub inherited_path : World → Text
  pub which : Text → World → Option Text
  pub resolve : Text → World → Text
  -- the parents of the directories `bin` that hold a file `rpmz`
  pub install_roots : Text → World → List Text
  pub bin_entries : Text → World → List Text
  pub exists : Text → Text → World → Bool
  -- the names of the assets in what `gh` prints
  pub asset_names : Text → Option (List Text)
  -- the text of the `.sha256` file and the digest of the archive
  pub sidecar : Text → Text → World → Text
  pub digest : Text → Text → World → Text

-- What a part of the run starts, the machine behind it, and what it gives.
abbrev pub Ran : Type 0 → Type 0 → Type 0
Ran World A = List Command × World × Outcome SmokeError A

abbrev pub Part : Type 0 → Type 0 → Type 0
Part World A = World → Ran World A

-- One part behind another.
unfoldable pub continue : {World A B : Type 0} → Ran World A → (A → Part World B) → Ran World B
continue (started, w, raise e) f = (started, w, raise e)
continue (started, w, ok a) f = let (more, w', o) = f a w in (started ++ more, w', o)

unfoldable pub both_parts : {World A B : Type 0} → Part World A → (A → Part World B) → Part World B
unfolding continue
both_parts m f w = continue (m w) f

-- `if not condition: raise`
abbrev pub require : {World : Type 0} → (World → Bool) → SmokeError → Part World (Unit {0})
require condition e w = elim (condition w) [ true ↦ ([], w, ok tt) | false ↦ ([], w, raise e) ]

abbrev pub look : {World A : Type 0} → (World → A) → Part World A
look f w = ([], w, ok (f w))

abbrev pub demand : {World A : Type 0} → (World → Option A) → SmokeError → Part World A
demand f e w = elim (f w) [ none ↦ ([], w, raise e) | some a ↦ ([], w, ok a) ]

-- A result of a function that touches no file.
abbrev pub lifted : {World A E : Type 0} → (E → SmokeError) → (World → Outcome E A) → Part World A
lifted f o w = elim (o w) [ ok a ↦ ([], w, ok a) | raise e ↦ ([], w, raise (f e)) ]

-- `install_roots[0]`, if it is the only one
unfoldable pub only_root : List Text → Option Text
only_root (root ∷ []) = some root
only_root _ = none

-- `bin_entries != ["rpmz"]`
unfoldable pub lone_rpmz : List Text → Bool
unfolding text_eq
lone_rpmz (name ∷ []) = text_eq name (codes "rpmz")
lone_rpmz _ = false

unfoldable pub layout : List Text
layout = texts ("lib" ∷ "libexec" ∷ "etc" ∷ "COPYING" ∷ "README.md" ∷ [])

module _ {World : Type 0} (machine : Machine World) where
  -- `runner.<method>(...)`, with `check=True`
  unfoldable pub command : Command → Part World (Text × Text)
  command c w =
      let (w', result) = machine.execute c w in
      elim result [
        | none ↦ (c ∷ [], w', raise command_failed)
        | some output ↦ (c ∷ [], w', ok output)
      ]

  -- The four directories below the prefix.
  unfoldable pub prepare : Text → Part World (Unit {0})
  prepare prefix w = elim (machine.make_directories prefix w) [
    | none ↦ ([], w, raise directory_exists)
    | some w' ↦ ([], w', ok tt)
  ]

  unfoldable pub environment : Text → World → Environment
  environment prefix w = record {
    tool_dir = prefix ++ codes "/tools";
    bin_dir = prefix ++ codes "/bin";
    cache_dir = prefix ++ codes "/cache";
    path = prefix ++ codes "/bin:" ++ machine.inherited_path w;
  }

  -- `ghr_install`, and the archive it reports
  unfoldable pub install : Arguments → Text → Environment → Part World (Unit {0})
  unfolding both_parts command contains
  install args archive_name env =
      both_parts (command (ghr_install (args.repo ++ codes "@" ++ args.tag) env)) (λ (out, err).
        require (λ w. contains (out ++ err) archive_name) (selected_otherwise archive_name))

  -- `shutil.which("rpmz")`, which has to be the one below the prefix
  unfoldable pub find_rpmz : Environment → Part World Text
  unfolding both_parts text_eq
  find_rpmz env = both_parts (demand (machine.which env.path) not_on_path) (λ rpmz_path.
      both_parts
        (require
          (λ w.
            text_eq (machine.resolve rpmz_path w)
              (machine.resolve (env.bin_dir ++ codes "/rpmz") w))
          not_on_path)
        (λ _. look (λ w. rpmz_path)))

  -- `result.stdout.strip() == f"rpmz: {version}"`
  unfoldable pub reports : Text → Text → Bool
  unfolding text_eq strip
  reports version out = text_eq (strip out) (codes "rpmz: " ++ version)

  -- The version that the program and the compatible command report.
  unfoldable pub check_versions : Arguments → Text → Environment → Part World (Unit {0})
  unfolding both_parts command reports
  check_versions args rpmz_path env =
      both_parts (command (rpmz_version rpmz_path env)) (λ (out, err).
        both_parts (require (λ w. reports args.version out) wrong_version) (λ _.
          both_parts (command (compatibility_version rpmz_path env))
            (λ (out, err). require (λ w. reports args.version out) wrong_compatibility_version)))

  unfoldable pub one_root : Environment → Part World Text
  unfolding only_root
  one_root env = demand (λ w. only_root (machine.install_roots env.tool_dir w)) not_one_layout

  unfoldable pub require_each : Text → List Text → Part World (Unit {0})
  unfolding both_parts
  require_each root [] = look (λ w. tt)
  require_each root (relative ∷ rest) =
      both_parts (require (machine.exists root relative) (lacks relative))
        (λ _. require_each root rest)

  -- The layout that is installed.
  unfoldable pub check_layout : Environment → Part World Text
  unfolding both_parts one_root require_each lone_rpmz layout
  check_layout env = both_parts (one_root env) (λ root.
      both_parts (look (machine.bin_entries root)) (λ entries.
        both_parts (require (λ w. lone_rpmz entries) (other_binaries entries))
          (λ _. both_parts (require_each root layout) (λ _. look (λ w. root)))))

  -- The assets that are published.
  unfoldable pub check_assets : Arguments → Manifest → Environment → Part World (Unit {0})
  unfolding both_parts command set_eq expected_assets
  check_assets args m env =
      both_parts (command (release_assets args.repo args.tag env)) (λ (out, err).
        both_parts (demand (λ w. machine.asset_names out) unreadable_assets) (λ actual.
          require (λ w. set_eq actual (expected_assets m args.version))
            (assets_differ (expected_assets m args.version) actual)))

  -- The download and its checksum.
  unfoldable pub check_download : Arguments → Text → Text → Environment → Part World (Unit {0})
  unfolding both_parts command verify_checksum
  check_download args download_dir archive_name env =
      both_parts (command (download_assets args.repo args.tag download_dir archive_name env)) (λ _.
        lifted bad_checksum (λ w.
          verify_checksum (machine.sidecar download_dir archive_name w)
            (machine.digest download_dir archive_name w) archive_name))

  -- `run_smoke`, with the prefix as `Path.resolve` gives it
  unfoldable pub run_smoke : Arguments → Manifest → Text → Part World (Unit {0})
  unfolding both_parts validate_arguments prepare environment install find_rpmz check_versions
      check_layout command check_assets check_download
  run_smoke args m prefix = both_parts (lifted bad_arguments (λ w. validate_arguments args m)) (λ _.
      both_parts (prepare prefix) (λ _. both_parts (look (environment prefix)) (λ env.
        both_parts (install args (m.binary_archive args.version args.platform) env) (λ _.
          both_parts (find_rpmz env) (λ rpmz_path.
            both_parts (check_versions args rpmz_path env) (λ _.
              both_parts (check_layout env) (λ root.
                both_parts (command (native_audit root env)) (λ _.
                  both_parts (check_assets args m env) (λ _.
                    check_download args (prefix ++ codes "/downloads")
                      (m.binary_archive args.version args.platform) env)))))))))
