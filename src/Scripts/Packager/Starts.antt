-- ===== src/Scripts/Packager/Starts.antt =====
-- Which processes the packager starts.
use rpmz.Base.{◌≡◌, some, List, [], ◌++◌, Text, codes}
use rpmz.Workflow.Values.{Fields}
use rpmz.Workflow.Steps.Sound.{append-nothing}
use rpmz.Scripts.Syntax.{Tree, qualified}
use rpmz.Scripts.Walk.{Located}
use rpmz.Scripts.Walk.Reaches.{Descends}
use rpmz.Scripts.Imports.{ScriptProblem, audit_script_signing, audit_imports}
use rpmz.Scripts.Process.{audit_process_execution}
use rpmz.Scripts.Process.Sound.{IsApproved}
use rpmz.Scripts.Process.Uses.{IsCalledBy, audit_process_execution-uses}
use rpmz.Scripts.Packager.{
  audit_manifest, packager_imports, packager_from, packager_argv, audit_calls, expected_calls,
  body_of, audit_packager,
}

-- If the audit of the manifest and of the packager has no message, then the packager speaks of `subprocess`
-- only to call `subprocess.run` in one of the three functions that are listed, with the listed argument.
pub audit_packager-starts :
    (manifest : Fields) (script : Tree) (x : Located) (attr : Text)
    → audit_packager manifest script ≡ []
    → Descends script x
    → qualified x.0 ≡ some (codes "subprocess", attr)
    → (attr ≡ codes "run")
      × (y : Located) × Descends script y
      × IsCalledBy x y
      × IsApproved packager_argv y
unfolding audit_packager
audit_packager-starts manifest script x attr silent d h =
    let before =
      append-nothing (nodes ++ processes) (audit_calls expected_calls (body_of script)) silent in
    audit_process_execution-uses script packager_argv x attr
      (append-nothing nodes processes before.0).1 d h
  where
    nodes : List ScriptProblem
    nodes =
        audit_manifest manifest
        ++ audit_script_signing script
        ++ audit_imports script packager_imports packager_from

    processes : List ScriptProblem
    processes = audit_process_execution script packager_argv
