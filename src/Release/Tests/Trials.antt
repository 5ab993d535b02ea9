-- ===== src/Release/Tests/Trials.antt =====
-- Runs of the smoke test on a machine that answers as it should, and on one whose program has another version.
use rpmz.Base.{◌≡◌, refl, true, Option, some, [], ◌∷◌, ◌++◌, Text, codes, texts, Outcome, ok, raise}
use rpmz.Release.Assets.{expected_assets}
use rpmz.Release.Smoke.{Arguments}
use rpmz.Release.Trial.{
  Command, ghr_install, rpmz_version, compatibility_version, wrong_version, SmokeError, Machine,
  Ran, run_smoke,
}
use rpmz.Release.Trial.Order.{
  installs, checks_version, checks_compatibility, audits, lists_assets, downloads, Follows,
  run_smoke-Follows,
}
use rpmz.Release.Tests.{manifest}

abbrev trial : Arguments
trial = record {
  repo = codes "cataggar/rpmz";
  tag = codes "v1.2.3";
  version = codes "1.2.3";
  platform = codes "linux-arm64";
}

-- The world is the version that the installed program reports.
abbrev answers : Command → Text → Text × Option (Text × Text)
answers (ghr_install spec env) w =
    (w, some (manifest.binary_archive trial.version trial.platform, []))
answers (rpmz_version path env) w = (w, some (codes "rpmz: " ++ w ++ codes "\n", []))
answers (compatibility_version path env) w = (w, some (codes "rpmz: " ++ w ++ codes "\n", []))
answers _ w = (w, some ([], []))

unfoldable honest : Machine Text
unfolding expected_assets
honest = record {
  execute = answers;
  make_directories = λ prefix w. some w;
  inherited_path = λ w. codes "/usr/bin";
  which = λ path w. some (codes "/t/bin/rpmz");
  resolve = λ path w. path;
  install_roots = λ directory w. codes "/t/tools/rpmz" ∷ [];
  bin_entries = λ root w. texts ("rpmz" ∷ []);
  exists = λ root relative w. true;
  asset_names = λ printed. some (expected_assets manifest trial.version);
  sidecar = λ directory archive w. codes "0af  " ++ archive;
  digest = λ directory archive w. codes "0af";
}

abbrev outcome : {World A : Type 0} → Ran World A → Outcome SmokeError A
outcome (started, w, o) = o

passes : outcome (run_smoke honest trial manifest (codes "/t") (codes "1.2.3")) ≡ ok tt
unfolding run_smoke honest
passes = refl

fails : outcome (run_smoke honest trial manifest (codes "/t") (codes "1.2.4")) ≡ raise wrong_version
unfolding run_smoke honest
fails = refl

run_smoke-Follows_example :
    Follows
      (installs ∷ checks_version ∷ checks_compatibility ∷ audits ∷ lists_assets ∷ downloads ∷ [])
      (run_smoke honest trial manifest (codes "/t") (codes "1.2.3"))
run_smoke-Follows_example = run_smoke-Follows honest trial manifest (codes "/t") (codes "1.2.3")
