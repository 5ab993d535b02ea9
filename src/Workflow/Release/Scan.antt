-- ===== src/Workflow/Release/Scan.antt =====
-- The environment of each step and the words of each scalar, as `audit_release_workflow` of
-- scripts/release-audit.py allows them.
use rpmz.Base.{
  ℕ, Bool, not, ◌&&◌, ◌||◌, Option, none, some, List, [], ◌∷◌, ◌++◌, map, leb, ◌==◌, if◌then◌else◌,
  Text, codes, texts, text_eq, contains, lower, mem, ok, raise,
}
use rpmz.Workflow.Values.{Value, null, text, mapping, Fields, end, field, has_key, value_eq}
use rpmz.Workflow.Steps.{
  wrong_type, Problem, changed, in_step, forbidden_token, signing_capability, Checked, expect,
  each_of, str, dict, ghr_install_action, zig_install_env, signing_commands, get_or, job_steps,
}
use rpmz.Workflow.Release.Table.{title_of}

-- `expected_env` of a step
unfoldable pub expected_env : Text → Fields → Option Value
unfolding text_eq value_eq get_or zig_install_env ghr_install_action
expected_env name step =
    if text_eq name (codes "build")
      && value_eq (get_or null (codes "uses") step) (text ghr_install_action)
    then some zig_install_env
    else if text_eq name (codes "post-release-smoke")
        && value_eq (get_or null (codes "name") step) (str "Install and audit published release")
    then some (mapping (dict (("GH_TOKEN", str "${{ secrets.GITHUB_TOKEN }}") ∷ [])))
    else none

unfoldable pub env_matches : Option Value → Fields → Bool
unfolding get_or has_key value_eq
env_matches (some env) step = value_eq (get_or null (codes "env") step) env
env_matches none step = not (has_key (codes "env") step)

-- A step that is no dict has no `get`.
unfoldable pub audit_env : Text → Value → Checked
unfolding expect env_matches expected_env title_of
audit_env name (mapping step) = ok (
    expect (env_matches (expected_env name step) step)
      (in_step name (title_of step) "env allowlist changed"))
audit_env name _ = raise wrong_type

-- The steps of every job.
unfoldable pub audit_envs : Fields → List Checked
unfolding each_of audit_env job_steps
audit_envs end = []
audit_envs (field name job jobs) = each_of (map (audit_env name) (job_steps job)) ∷ audit_envs jobs

unfoldable pub forbidden : List Text
forbidden =
    texts (
      "cataggar/tdnf" ∷ "tdnf-" ∷ "minisign" ∷ ".minisig" ∷ "signing_secret" ∷ "signing secret"
      ∷ [])

-- `[a-z0-9_.-]`
unfoldable pub is_command : ℕ → Bool
is_command c =
    leb b'a' c && leb c b'z' || leb b'0' c && leb c b'9' || c == b'_' || c == b'.' || c == b'-'

-- `re.findall(r"[a-z0-9_.-]+", text)`, with the word read so far.
unfoldable pub words_from : Text → Text → List Text
unfolding is_command
words_from [] [] = []
words_from (c ∷ word) [] = (c ∷ word) ∷ []
words_from word (c ∷ s) =
    if is_command c
    then words_from (word ++ (c ∷ [])) s
    else elim word [ [] ↦ words_from [] s | d ∷ more ↦ (d ∷ more) ∷ words_from [] s ]

-- `left & right` of two sets
unfoldable pub common : List Text → List Text → List Text
unfolding mem
common [] words = []
common (c ∷ cs) words = if mem c words then c ∷ common cs words else common cs words

-- `SIGNING_COMMANDS & command_tokens`
unfoldable pub signing_words : Text → List Text
unfolding words_from common signing_commands
signing_words lowered = common signing_commands (words_from [] lowered)

-- The first forbidden token of a text.
unfoldable pub find_token : List Text → Text → Option Text
unfolding contains
find_token [] lowered = none
find_token (token ∷ tokens) lowered =
    if contains lowered token then some token else find_token tokens lowered

-- The message about one scalar.
unfoldable pub audit_scalar : Text → Option Problem
unfolding lower find_token forbidden signing_words contains text_eq
audit_scalar scalar = elim (find_token forbidden (lower scalar)) [
  | some token ↦ some (forbidden_token token)
  | none ↦ elim (signing_words (lower scalar)) [
    | c ∷ cs ↦ some (signing_capability (c ∷ cs))
    | [] ↦
        if contains (lower scalar) (codes "secrets.")
          && not (text_eq scalar (codes "${{ secrets.GITHUB_TOKEN }}"))
        then some (changed "release workflow contains an unapproved secret")
        else none
  ]
]

-- The loop returns with the first message.
unfoldable pub audit_scalars : List Text → List Problem
unfolding audit_scalar
audit_scalars [] = []
audit_scalars (scalar ∷ scalars) = elim (audit_scalar scalar) [
  | some problem ↦ problem ∷ []
  | none ↦ audit_scalars scalars
]
