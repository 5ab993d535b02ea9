-- ===== src/Confinement/Tests.antt =====
-- Runs of the lexer and of the audit, and the theorems at concrete inputs.
use rpmz.Base.{
  ◌≡◌, refl, sym, subst, some, List, [], ◌∷◌, arith, length, All, In, here, Text, codes, ok,
  is_word, starts_name,
}
use rpmz.Base.Balanced.{nil, plain, group}
use rpmz.Confinement.Lexer.{StringToken, lex_zig}
use rpmz.Confinement.Lexer.Spans.{IsSpan, lex_zig-IsSpan, length-lex_zig}
use rpmz.Confinement.Policy.{
  allowed_imports, allowed_verified_fetch_members, allowed_repomd_members,
  forbidden_internal_member_tokens, forbidden_reflection_builtins, socket_symbols,
  windows_socket_symbols, forbidden_dynamic_lookup_tokens, forbidden_process_tokens,
  forbidden_process_member_tokens, forbidden_resolver_tokens, forbidden_network_tokens,
  windows_resolver_symbols,
}
use rpmz.Confinement.Imports.{matching_parenthesis, Call, import_calls, expand_std_imports}
use rpmz.Confinement.Imports.Laws.{
  FromToken, matching_parenthesis-IsBalanced, import_calls-FromToken,
}
use rpmz.Confinement.Audit.{identifier_tokens, check_token, audit_source}
use rpmz.Confinement.Audit.Sound.{IsConfined, audit_source-IsConfined, identifier_tokens-IsName}

lex_string :
    (lex_zig (codes "a \"(\\x41\" b")).strings
    ≡ record { start = 2; end = 9; value = codes "(A" } ∷ []
unfolding lex_zig
lex_string = refl

lex_code :
    (lex_zig (codes "f(/* /* x */ y */ @\"no\", 'c') // z")).code
    ≡ codes "f(                no   ,    )     "
unfolding lex_zig
lex_code = refl

abbrev sample : Text
sample =
    codes
      "_ = @import(\"std\");\n_ = @import(\"builtin\");\n_ = @import(\"client_abi\");\n_ = @import(\"bundle_reader\");\n_ = @import(\"bundle_selection\");\n_ = @import(\"canonical_json\");\n_ = @import(\"content_digest\");\n_ = @import(\"transaction.zig\");\n_ = @import(\"repomd_client_exports\");\n_ = @import(\"rpm_gpgcheck\");\n_ = @import(\"rpm_header\");\n_ = @import(\"transaction_bundle\");\n_ = @import(\"transaction_lock\");\n_ = @import(\"transaction_plan\");\n_ = @import(\"rpm_txn_config\");\n_ = @import(\"rpm_package_test\");\n_ = @import(\"verified_fetch\");\n// fetch\npub const Input = struct {\n    bundle_directory: u8,\n    target: u8,\n};\npub const Target = struct {\n    install_root: u8,\n    rpmdb_path: u8,\n    architecture: u8,\n};\n_ = verified_fetch.verifyOpen; _ = repomd.available_repository_loader; _ = repomd.solver_rules;\n"

audit-sample : audit_source sample ≡ ok tt
unfolding audit_source check_token allowed_imports allowed_verified_fetch_members
    allowed_repomd_members forbidden_internal_member_tokens forbidden_reflection_builtins
    socket_symbols windows_socket_symbols forbidden_dynamic_lookup_tokens forbidden_process_tokens
    forbidden_process_member_tokens forbidden_resolver_tokens forbidden_network_tokens
    windows_resolver_symbols
audit-sample = refl

audit_source-IsConfined_example :
    (calls : List Call) × (import_calls (lex_zig sample) ≡ ok calls)
    × IsConfined calls (expand_std_imports (lex_zig sample).code calls)
audit_source-IsConfined_example = audit_source-IsConfined sample audit-sample

identifier_tokens-IsName_example : In (codes "fn") (identifier_tokens (codes "a.fn("))
identifier_tokens-IsName_example =
    identifier_tokens-IsName (codes "a.") (codes "fn") (codes "(") (unfold is_word in refl)
      (unfold starts_name is_word in (refl, refl)) (unfold is_word in refl)

matching_parenthesis-IsBalanced_example : matching_parenthesis (codes "(a()b)c") ≡ some 5
matching_parenthesis-IsBalanced_example =
    matching_parenthesis-IsBalanced (codes "a()b") (codes "c")
      (plain (omega arith) (omega arith) (group nil (plain (omega arith) (omega arith) nil) refl))

abbrev quoted : StringToken
quoted = record { start = 2; end = 9; value = codes "(A" }

lex_zig-IsSpan_example :
    IsSpan 0 (codes "a \"(\\x41\" b") (lex_zig (codes "a \"(\\x41\" b")).code quoted
lex_zig-IsSpan_example =
    lex_zig-IsSpan (codes "a \"(\\x41\" b") quoted (subst (In quoted) (sym lex_string) (here refl))

abbrev one_import : Text
one_import = codes "@import(\"std\")"

import_calls-one :
    import_calls (lex_zig one_import)
    ≡ ok (record { start = 0; end = 14; value = codes "std" } ∷ [])
unfolding import_calls lex_zig
import_calls-one = refl

import_calls-FromToken_example :
    All
      (FromToken (lex_zig one_import).strings)
      (record { start = 0; end = 14; value = codes "std" } ∷ [])
import_calls-FromToken_example =
    import_calls-FromToken (lex_zig one_import)
      (record { start = 0; end = 14; value = codes "std" } ∷ []) import_calls-one

length-lex_zig_example : length (lex_zig one_import).code ≡ length one_import
length-lex_zig_example = length-lex_zig one_import
