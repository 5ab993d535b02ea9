-- ===== src/Release/Archive.antt =====
-- `verify_archive` and `verify_public_archive_bin` of scripts/release.py, on the members that `tarfile`
-- reads from an archive.
use rpmz.Base.{
  ℕ, zero, suc, ◌+◌, ◌-◌, ◌*◌, ◌/◌, ◌%◌, ◌≤◌, ◌<◌, String, ◌≡◌, refl, sym, ap, ◌∙◌, subst, ◌≢◌, ◌↔◌,
  ◌⊎◌, inl, inr, Bool, true, false, not, ◌&&◌, ◌||◌, Option, none, some, List, [], ◌∷◌, ◌++◌, map,
  append_assoc, append-nil, arith, ltb, leb, ◌==◌, if◌then◌else◌, ==_iff, ==_refl, Bool-cases,
  Option-cases, List-cases, and-true, or-true, not-true, length, get_elem?, take, drop, replicate,
  any, every, All, In, here, there, In-cons, not-In-nil, In-append_left, In-append_right,
  In-append_cases, length-append, length-drop, length-take_of_le, length-replicate,
  take-append-drop, if-cases, All-append, All-imp, every-All, length-map, Text, codes, texts,
  text_eq, text_eq_iff, text_eq_refl, starts_with, starts_with-append, starts_with-eq, ends_with,
  contains, is_space, lstrip, rstrip, strip, split, join, lower, mem, subset, set_eq, mem_self,
  mem-cons, mem-append, mem-subset, subset_intro, set_eq_iff, Outcome, ok, raise, ◌>>=◌, ◌>>◌,
  guard, >>=-eq-ok, guard-eq-ok, for_each, then-eq-ok, >>-eq-ok, for_each-In, is_digit, is_word,
  starts_name, is_hex, drop_while, take_while, take_while-append-drop_while, after, word_ends,
  search, find_all, is_some, match_word, expand,
}
pub mod Accepted
use rpmz.Release.Paths.{
  PurePath, pure_path, joined, parent, file_name, same_path, as_posix, safe_relative,
}

pub data Kind : Type 0 where
  file directory symlink hardlink : Kind

pub record Member : Type 0 where
  pub name : Text
  pub kind : Kind
  pub linkname : Text
  pub mode : ℕ
  pub digest : Text

pub data ReleaseError : Type 0 where
  unsafe_member unsafe_link missing_file retired_installed empty_directory : Text → ReleaseError
  bin_not_only_rpmz not_executable stop_iteration : ReleaseError

abbrev pub required_dirs : List Text
required_dirs = texts ("bin" ∷ "lib" ∷ "libexec" ∷ "etc" ∷ [])

abbrev pub required_files : List Text
required_files = texts ("bin/rpmz" ∷ "COPYING" ∷ "README.md" ∷ [])

abbrev pub public_binaries : List Text
public_binaries = texts ("rpmz" ∷ [])

abbrev pub retired_public_binaries : List Text
retired_public_binaries = texts ("tdnf" ∷ "rpmz-config" ∷ "rpmz-automatic" ∷ "jsondumptest" ∷ [])

-- `name.rstrip("/")`
unfoldable pub rstrip_slash : Text → Text
rstrip_slash [] = []
rstrip_slash (c ∷ s) =
    let rest = rstrip_slash s in
    elim rest [ [] ↦ if c == b'/' then [] else c ∷ [] | d ∷ r ↦ c ∷ d ∷ r ]

abbrev pub in_package : Text → Text → Text
in_package package_name relative = package_name ++ (codes "/" ++ relative)

-- `PurePosixPath(package_name) / "bin"`
abbrev pub bin_dir : Text → PurePath
bin_dir package_name = joined (pure_path package_name) (pure_path (codes "bin"))

-- The names of the entries of the bin directory.
unfoldable pub bin_entries : Text → List Text → List Text
unfolding pure_path joined parent file_name same_path
bin_entries package_name [] = []
bin_entries package_name (name ∷ names) =
    let rest = bin_entries package_name names in
    if same_path (parent (pure_path name)) (bin_dir package_name)
    then file_name (pure_path name) ∷ rest
    else rest

unfoldable pub retired_path : Text → Text → Text
unfolding pure_path joined as_posix
retired_path package_name retired = as_posix (joined (bin_dir package_name) (pure_path retired))

unfoldable pub has_no_retired : Text → List Text → Text → Bool
unfolding mem retired_path
has_no_retired package_name member_names retired =
    not (mem (retired_path package_name retired) member_names)

unfoldable pub reject_retired : Text → List Text → List Text → Outcome ReleaseError (Unit {0})
unfolding has_no_retired
reject_retired package_name member_names retired_names =
    for_each (λ r. guard (has_no_retired package_name member_names r) (retired_installed r))
      retired_names

unfoldable pub verify_public_archive_bin : List Text → Text → Outcome ReleaseError (Unit {0})
unfolding bin_entries set_eq reject_retired
verify_public_archive_bin member_names package_name =
    reject_retired package_name member_names retired_public_binaries
    >> guard (set_eq (bin_entries package_name member_names) public_binaries) bin_not_only_rpmz

unfoldable pub is_link : Member → Bool
is_link m = elim m.kind [ file ↦ false | directory ↦ false | symlink ↦ true | hardlink ↦ true ]

-- The path that is asked about a link, symbolic or hard: what it says, from the directory of the member.
unfoldable pub link_target : Member → Text
unfolding pure_path joined parent as_posix
link_target m = as_posix (joined (parent (pure_path m.name)) (pure_path m.linkname))

unfoldable pub check_member : Member → Outcome ReleaseError (Unit {0})
unfolding safe_relative is_link link_target
check_member m =
    guard (safe_relative m.name) (unsafe_member m.name)
    >> guard (not (is_link m) || safe_relative (link_target m)) (unsafe_link m.name)

unfoldable pub member_names : List Member → List Text
unfolding rstrip_slash
member_names [] = []
member_names (m ∷ ms) = rstrip_slash m.name ∷ member_names ms

-- `next(member for member in members if ...)`
unfoldable pub find_member : Text → List Member → Option Member
unfolding rstrip_slash text_eq
find_member name [] = none
find_member name (m ∷ ms) =
    let later = find_member name ms in if text_eq (rstrip_slash m.name) name then some m else later

-- `mode & 0o111 != 0`
unfoldable pub is_executable : ℕ → Bool
is_executable mode = not (mode % 2 == 0 && (mode / 8 % 2 == 0 && mode / 64 % 2 == 0))

unfoldable pub check_executable : Option Member → Outcome ReleaseError (Unit {0})
unfolding is_executable
check_executable none = raise stop_iteration
check_executable (some m) = guard (is_executable m.mode) not_executable

unfoldable pub has_file : Text → List Text → Text → Bool
unfolding mem
has_file package_name names relative = mem (in_package package_name relative) names

unfoldable pub require_files : Text → List Text → List Text → Outcome ReleaseError (Unit {0})
unfolding has_file
require_files package_name names relatives =
    for_each (λ r. guard (has_file package_name names r) (missing_file r)) relatives

-- Some name begins with the directory and a slash.
unfoldable pub has_directory : Text → List Text → Text → Bool
unfolding starts_with
has_directory package_name names d =
    any (λ n. starts_with n (in_package package_name (d ++ codes "/"))) names

unfoldable pub require_directories : Text → List Text → List Text → Outcome ReleaseError (Unit {0})
unfolding has_directory
require_directories package_name names directories =
    for_each (λ d. guard (has_directory package_name names d) (empty_directory d)) directories

unfoldable pub verify_members : List Member → Text → Outcome ReleaseError (Unit {0})
unfolding check_member member_names require_files verify_public_archive_bin find_member
    check_executable require_directories
verify_members members package_name =
    for_each check_member members
    >> (require_files package_name (member_names members) required_files
        >> (verify_public_archive_bin (member_names members) package_name
            >> (check_executable (find_member (in_package package_name (codes "bin/rpmz")) members)
                >> require_directories package_name (member_names members) required_dirs)))

unfoldable pub verify_archive : List Member → Text → Text → Outcome ReleaseError (Unit {0})
unfolding verify_members
verify_archive members version platform_name =
    verify_members members (codes "rpmz-" ++ (version ++ (codes "-" ++ platform_name)))
