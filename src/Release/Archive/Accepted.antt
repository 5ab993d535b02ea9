-- ===== src/Release/Archive/Accepted.antt =====
-- What an archive that `verify_archive` accepts is like.
use rpmz.Base.{
  ◌≡◌, refl, ◌∙◌, ◌⊎◌, inl, inr, true, false, not, ◌||◌, List, [], ◌∷◌, ◌++◌, arith, Bool-cases,
  or-true, not-true, All, In, here, there, All-imp, Text, codes, text_eq, text_eq_iff, starts_with,
  drop, split, mem, set_eq, set_eq_iff, ok, guard-eq-ok, for_each, then-eq-ok, >>-eq-ok,
  for_each-All, for_each-guard,
}
use rpmz.Release.Paths.{safe_relative}
use rpmz.Release.Paths.Below.{walk, IsBelow, safe_relative-IsBelow}
use rpmz.Release.Paths.Resolves.{IsWithin, target-relative, link-IsBelow, hardlink-IsWithin}
use rpmz.Release.Archive.{
  Kind, file, directory, symlink, hardlink, Member, unsafe_member, unsafe_link, missing_file,
  retired_installed, empty_directory, bin_not_only_rpmz, not_executable, required_dirs,
  required_files, public_binaries, retired_public_binaries, rstrip_slash, in_package, bin_entries,
  verify_public_archive_bin, is_link, link_target, check_member, member_names, find_member,
  has_no_retired, reject_retired, has_file, require_files, has_directory, require_directories,
  is_executable, check_executable, verify_members, verify_archive,
}

-- The executable of the package.
abbrev pub HasExecutable : Text → List Member → Type 0
HasExecutable name members =
    (m : Member) × In m members × (rstrip_slash m.name ≡ name) × (is_executable m.mode ≡ true)

-- What a link says, followed from the directory in which the link stands.
abbrev pub from_link : List Text → Text → Text → List Text
from_link dir name linkname = walk (drop 1 (walk dir (split b'/' name))) (split b'/' linkname)

-- Where the links of an archive lead when it is unpacked into a directory. A symbolic link is followed from
-- the directory in which it stands. A hard link is followed from the directory of the archive; what the code
-- asks of it is where it leads from the directory in which it stands.
abbrev pub LeadsInside : List Text → Kind → Text → Text → Type 0
LeadsInside dir file name linkname = Unit
LeadsInside dir directory name linkname = Unit
LeadsInside dir symlink name linkname =
    (starts_with linkname (codes "/") ≡ false) × IsBelow dir (from_link dir name linkname)
LeadsInside dir hardlink name linkname =
    (starts_with linkname (codes "/") ≡ false)
    × IsWithin dir (walk dir (split b'/' linkname))
    × IsBelow dir (from_link dir name linkname)

-- An archive unpacked into a directory: where its members lie and its links lead, and what the package
-- holds.
pub record IsAccepted (package_name : Text) (members : List Member) (dir : List Text) : Type 0 where
  pub inside : All (λ m. IsBelow dir (walk dir (split b'/' m.name))) members
  pub links_inside : All (λ m. LeadsInside dir m.kind m.name m.linkname) members
  pub files : All (λ r. has_file package_name (member_names members) r ≡ true) required_files
  pub only_rpmz :
      (name : Text)
      → mem name (bin_entries package_name (member_names members)) ≡ text_eq name (codes "rpmz")
  pub not_retired :
      All (λ r. has_no_retired package_name (member_names members) r ≡ true) retired_public_binaries
  pub executable : HasExecutable (in_package package_name (codes "bin/rpmz")) members
  pub directories :
      All (λ d. has_directory package_name (member_names members) d ≡ true) required_dirs

checked-inside :
    (dir : List Text) (m : Member)
    → check_member m ≡ ok tt
    → IsBelow dir (walk dir (split b'/' m.name)) × LeadsInside dir m.kind m.name m.linkname
unfolding check_member link_target
checked-inside dir m h =
    let (a, h1) = then-eq-ok (safe_relative m.name) (unsafe_member m.name) _ h in
    let b =
      guard-eq-ok (not (is_link m) || safe_relative (link_target m)) (unsafe_link m.name) h1 in
    (
      safe_relative-IsBelow m.name a dir,
      leads m.kind a (elim (or-true (not (is_link m)) (safe_relative (link_target m)) b) [
        | inl n ↦ inl (not-true (is_link m) n)
        | inr s ↦ inr s
      ]),
    )
  where
    leads :
        (kind : Kind)
        → safe_relative m.name ≡ true
        → (is_link (record m { kind = kind }) ≡ false) ⊎ (safe_relative (link_target m) ≡ true)
        → LeadsInside dir kind m.name m.linkname
    leads file a s = tt
    leads directory a s = tt
    leads symlink a (inl n) = unfold is_link in cc
    leads symlink a (inr s) =
        ((target-relative m.name m.linkname s).1, link-IsBelow m.name m.linkname a s dir)
    leads hardlink a (inl n) = unfold is_link in cc
    leads hardlink a (inr s) = (
      (target-relative m.name m.linkname s).1,
      hardlink-IsWithin m.name m.linkname a s dir,
      link-IsBelow m.name m.linkname a s dir,
    )

found-executable :
    (name : Text) (members : List Member)
    → check_executable (find_member name members) ≡ ok tt
    → HasExecutable name members
unfolding find_member check_executable
found-executable name [] h = cc
found-executable name (m ∷ ms) h = elim (Bool-cases (text_eq (rstrip_slash m.name) name)) [
  | inl e ↦ (
    m,
    here refl,
    (text_eq_iff (rstrip_slash m.name) name).0 e,
    guard-eq-ok (is_executable m.mode) not_executable (rw e at h),
  )
  | inr e ↦ let (n, i, p, q) = found-executable name ms (rw e at h) in (n, there i, p, q)
]

verify_members-parts :
    (members : List Member) (package_name : Text)
    → verify_members members package_name ≡ ok tt
    → (for_each check_member members ≡ ok tt)
      × (require_files package_name (member_names members) required_files ≡ ok tt)
      × (reject_retired package_name (member_names members) retired_public_binaries ≡ ok tt)
      × (set_eq (bin_entries package_name (member_names members)) public_binaries ≡ true)
      × (check_executable (find_member (in_package package_name (codes "bin/rpmz")) members)
          ≡ ok tt)
      × (require_directories package_name (member_names members) required_dirs ≡ ok tt)
unfolding verify_members verify_public_archive_bin
verify_members-parts members package_name h =
    let names = member_names members in
    let (a, h1) = >>-eq-ok (for_each check_member members) _ h in
    let (b, h2) = >>-eq-ok (require_files package_name names required_files) _ h1 in
    let (c, h3) = >>-eq-ok (verify_public_archive_bin names package_name) _ h2 in
    let (d, e) =
      >>-eq-ok (check_executable (find_member (in_package package_name (codes "bin/rpmz")) members))
        _ h3 in
    let (f, g) = >>-eq-ok (reject_retired package_name names retired_public_binaries) _ c in
    (
      a,
      b,
      f,
      guard-eq-ok (set_eq (bin_entries package_name names) public_binaries) bin_not_only_rpmz g,
      d,
      e,
    )

-- What an accepted archive is like, wherever it is unpacked: every member lies strictly below the directory;
-- what a symbolic or hard link says does not begin with a slash and, followed from the directory in which the
-- link stands, leads strictly below the directory; followed from the directory of the archive, as a hard link
-- is, what a hard link says leads to that directory or below it; the required files are there, the entries of
-- `bin` are exactly `rpmz` and no retired executable is there, a member `bin/rpmz` is executable, and each of
-- the required directories has something in it. Paths are followed name by name, as if no name on the way were
-- itself a link.
pub verify_archive-IsAccepted :
    (members : List Member) (version platform_name : Text)
    → verify_archive members version platform_name ≡ ok tt
    → (dir : List Text)
    → IsAccepted (codes "rpmz-" ++ (version ++ (codes "-" ++ platform_name))) members dir
unfolding verify_archive require_files reject_retired require_directories
verify_archive-IsAccepted members version platform_name h dir =
    accepted (codes "rpmz-" ++ (version ++ (codes "-" ++ platform_name)))
      (verify_members-parts members (codes "rpmz-" ++ (version ++ (codes "-" ++ platform_name))) h)
  where
    Checked : Member → Type 0
    Checked m = check_member m ≡ ok tt

    only :
        (names : List Text)
        → set_eq names public_binaries ≡ true
        → (x : Text) → mem x names ≡ text_eq x (codes "rpmz")
    only names g x = (set_eq_iff names public_binaries).0 g x ∙ unfold mem in ground arith

    accepted :
        (package_name : Text)
        → (for_each check_member members ≡ ok tt)
          × (require_files package_name (member_names members) required_files ≡ ok tt)
          × (reject_retired package_name (member_names members) retired_public_binaries ≡ ok tt)
          × (set_eq (bin_entries package_name (member_names members)) public_binaries ≡ true)
          × (check_executable (find_member (in_package package_name (codes "bin/rpmz")) members)
              ≡ ok tt)
          × (require_directories package_name (member_names members) required_dirs ≡ ok tt)
        → IsAccepted package_name members dir
    accepted package_name (a, b, c, d, e, f) = record {
      inside =
          All-imp Checked (λ m. IsBelow dir (walk dir (split b'/' m.name)))
            (λ m k. (checked-inside dir m k).0) members (for_each-All check_member members a);
      links_inside =
          All-imp Checked (λ m. LeadsInside dir m.kind m.name m.linkname)
            (λ m k. (checked-inside dir m k).1) members (for_each-All check_member members a);
      files =
          for_each-guard (has_file package_name (member_names members)) missing_file required_files
            b;
      only_rpmz = only (bin_entries package_name (member_names members)) d;
      not_retired =
          for_each-guard (has_no_retired package_name (member_names members)) retired_installed
            retired_public_binaries c;
      executable = found-executable (in_package package_name (codes "bin/rpmz")) members e;
      directories =
          for_each-guard (has_directory package_name (member_names members)) empty_directory
            required_dirs f;
    }
