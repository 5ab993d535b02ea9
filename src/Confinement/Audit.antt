-- ===== src/Confinement/Audit.antt =====
-- `struct_fields`, `identifier_tokens`, `reject_token_policy`, `reject_foreign_socket_apis` and
-- `audit_source` of scripts/replay-confinement-audit.py. The loops over a Python set are in the order
-- of the list here.
use rpmz.Base.{
  ℕ, zero, suc, ◌+◌, ◌-◌, ◌*◌, ◌/◌, ◌%◌, ◌≤◌, ◌<◌, String, ◌≡◌, refl, sym, ap, ◌∙◌, subst, ◌≢◌, ◌↔◌,
  ◌⊎◌, inl, inr, Bool, true, false, not, ◌&&◌, ◌||◌, Option, none, some, List, [], ◌∷◌, ◌++◌, map,
  append_assoc, append-nil, arith, ltb, leb, ◌==◌, if◌then◌else◌, ==_iff, ==_refl, Bool-cases,
  Option-cases, List-cases, and-true, or-true, not-true, length, get_elem?, take, drop, replicate,
  any, every, All, In, here, there, In-cons, not-In-nil, In-append_left, In-append_right,
  In-append_cases, length-append, length-drop, length-take_of_le, length-replicate,
  take-append-drop, if-cases, All-append, All-imp, every-All, length-map, Text, codes, texts,
  text_eq, text_eq_iff, text_eq_refl, starts_with, starts_with-append, starts_with-eq, ends_with,
  contains, is_space, lstrip, rstrip, strip, split, join, lower, mem, subset, set_eq, mem_self,
  mem-cons, mem-append, mem-subset, subset_intro, set_eq_iff, Outcome, ok, raise, ◌>>=◌, ◌>>◌,
  guard, >>=-eq-ok, guard-eq-ok, for_each, is_digit, is_word, starts_name, is_hex, drop_while,
  take_while, take_while-append-drop_while, after, word_ends, search, find_all, is_some, match_word,
  expand,
}
pub mod Sound
use rpmz.Confinement.Lexer.{lex_zig}
use rpmz.Confinement.Imports.{
  AuditError, import_boundary, missing_struct, ambient_input, reflection_builtin,
  verified_fetch_usage, repomd_usage, c_import, extern_builtin, extern_socket, internal_member,
  dynamic_lookup, process_token, resolver_token, network_token, process_member, Call, import_calls,
  expand_std_imports,
}
use rpmz.Confinement.Policy.{
  allowed_imports, allowed_verified_fetch_members, allowed_repomd_members,
  forbidden_internal_member_tokens, forbidden_reflection_builtins, socket_symbols,
  windows_socket_symbols, forbidden_dynamic_lookup_tokens, forbidden_process_tokens,
  forbidden_process_member_tokens, forbidden_resolver_tokens, forbidden_network_tokens,
  windows_resolver_symbols,
}
use rpmz.Confinement.Patterns.{
  spaces, match_struct, match_field, fields_from, match_identifier, match_member, match_builtin,
  match_dot_member, matches_any, match_extern,
}

unfoldable pub struct_fields : Text → Text → Outcome AuditError (List Text)
unfolding search match_struct fields_from
struct_fields source name = elim (search (match_struct name) false source) [
  | none ↦ raise (missing_struct name)
  | some body ↦ ok (fields_from 0 true body)
]

unfoldable pub identifier_tokens : Text → List Text
unfolding find_all match_identifier
identifier_tokens = find_all match_identifier 0 false

unfoldable pub members : Text → Text → List Text
unfolding find_all match_member
members owner = find_all (match_member owner) 0 false

unfoldable pub has_builtin : Text → Text → Bool
unfolding search match_builtin
has_builtin lexical name = is_some (search (match_builtin name) false lexical)

unfoldable pub has_member : Text → Text → Bool
unfolding search match_dot_member
has_member lexical member = is_some (search (match_dot_member member) false lexical)

-- The body of the loop of `reject_token_policy` over the tokens.
unfoldable pub check_token : Text → Outcome AuditError (Unit {0})
unfolding mem lower matches_any
check_token token =
    let lowered = lower token in
    if mem token forbidden_internal_member_tokens
    then raise (internal_member token)
    else if mem lowered forbidden_dynamic_lookup_tokens
    then raise (dynamic_lookup token)
    else if mem lowered forbidden_process_tokens
    then raise (process_token token)
    else if mem lowered forbidden_resolver_tokens || matches_any windows_resolver_symbols token
    then raise (resolver_token token)
    else if mem lowered windows_socket_symbols
        || (mem lowered forbidden_network_tokens || matches_any socket_symbols token)
    then raise (network_token token)
    else ok tt

unfoldable pub check_member : Text → Text → Outcome AuditError (Unit {0})
unfolding has_member
check_member lexical member = guard (not (has_member lexical member)) (process_member member)

unfoldable pub reject_token_policy : Text → Outcome AuditError (Unit {0})
unfolding identifier_tokens check_token check_member
reject_token_policy lexical =
    for_each check_token (identifier_tokens lexical)
    >> for_each (check_member lexical) forbidden_process_member_tokens

unfoldable pub reject_foreign_socket_apis : Text → Outcome AuditError (Unit {0})
unfolding has_builtin search match_extern
reject_foreign_socket_apis lexical = do
  guard (not (has_builtin lexical (codes "cImport"))) c_import
  guard (not (has_builtin lexical (codes "extern"))) extern_builtin
  guard (not (is_some (search match_extern false lexical))) extern_socket

unfoldable pub texts_eq : List Text → List Text → Bool
unfolding text_eq
texts_eq [] [] = true
texts_eq (x ∷ xs) (y ∷ ys) = text_eq x y && texts_eq xs ys
texts_eq _ _ = false

abbrev input_fields : List Text
input_fields = texts ("bundle_directory" ∷ "target" ∷ [])

abbrev target_fields : List Text
target_fields = texts ("install_root" ∷ "rpmdb_path" ∷ "architecture" ∷ [])

unfoldable pub check_builtin : Text → Text → Outcome AuditError (Unit {0})
unfolding has_builtin
check_builtin lexical name = guard (not (has_builtin lexical name)) (reflection_builtin name)

-- `audit_source` behind the check of the imports.
unfoldable pub audit_lexical : Text → Outcome AuditError (Unit {0})
unfolding struct_fields texts_eq members set_eq check_builtin reject_token_policy
    reject_foreign_socket_apis
audit_lexical lexical = do
  input ← struct_fields lexical (codes "Input")
  guard (texts_eq input input_fields) (ambient_input (codes "Input"))
  target ← struct_fields lexical (codes "Target")
  guard (texts_eq target target_fields) (ambient_input (codes "Target"))
  guard (set_eq (members (codes "verified_fetch") lexical) allowed_verified_fetch_members)
      verified_fetch_usage
  guard (set_eq (members (codes "repomd") lexical) allowed_repomd_members) repomd_usage
  for_each (check_builtin lexical) forbidden_reflection_builtins
  reject_token_policy lexical
  reject_foreign_socket_apis lexical

unfoldable pub audit_source : Text → Outcome AuditError (Unit {0})
unfolding lex_zig import_calls expand_std_imports set_eq audit_lexical
audit_source source = do
  let lexed = lex_zig source
  calls ← import_calls lexed
  guard (set_eq (map (λ (c : Call). c.value) calls) allowed_imports) import_boundary
  audit_lexical (expand_std_imports lexed.code calls)
