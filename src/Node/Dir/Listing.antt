-- ===== src/Node/Dir/Listing.antt =====
-- internal/core/node/dir.go: what each operation does to a well-formed directory, on every branch.
use mdrive.Prelude.{
  ◌≡◌, refl, ap, ◌∙◌, =s=_refl, ◌⊎◌, inl, inr, ◌≤◌, true, false, none, some, List, [], ◌∷◌, ◌++◌,
  Text, ◌=s=◌, if◌then◌else◌, arith, ltb, length, ◌==◌, pos, Bool-cases, Option-cases, ltb→le,
}
use mdrive.Errorx.{Kind}
use mdrive.Result.{ok, err}
use mdrive.Node.Kinds.{NodeKind}
use mdrive.Node.Content.{DirEntry, dir_json, dir_len, content_len}
use mdrive.Node.Inode.{Node, Stamp, max_content_size}
use mdrive.Node.Typed.{Seed}
use mdrive.Node.Dir.{
  find_entry, without, new_directory, read_dir, write_dir, entry_of, is_some, add_entry,
  remove_entry, listed, keep_unlisted, remove_entries, lookup, is_nil,
}
use mdrive.Node.Dir.Entries.{
  Distinct, find_entry-append_new, without-append, dir_len-without, dir_len-keep_unlisted,
  find_entry-without, Distinct-append, Distinct-without, remove_first_lem, find_entry-keep_unlisted,
  Distinct-keep_unlisted, keep_unlisted_all,
}

-- A directory that holds the entries `es`: the document is theirs, no name stands twice, and the
-- document fits in 4096 bytes.
pub record IsDirectory (n : Node) (es : List DirEntry) : Type 0 where
  pub is_directory : n.kind ≡ NodeKind.directory
  pub holds : n.content ≡ some (dir_json es)
  pub distinct : Distinct es
  pub fits : dir_len es ≤ max_content_size

-- The inode after the entries were written.
abbrev pub written : Stamp → List DirEntry → Node → Node
written st es n = record n {
  content = some (dir_json es);
  size = pos (content_len (dir_json es));
  mtime = st.now;
  ctime = st.now;
  rev = st.rev;
}

pub write_dir_lem :
    (st : Stamp) (es : List DirEntry) (n : Node)
    → n.kind ≡ NodeKind.directory
    → write_dir st es n ≡ (
        if ltb max_content_size (dir_len es)
        then err Kind.invalid_argument
        else ok (written st es n))
unfolding write_dir content_len
write_dir_lem st es n d = ground arith

pub write_dir-ok :
    (st : Stamp) (es : List DirEntry) (n n' : Node)
    → n.kind ≡ NodeKind.directory
    → write_dir st es n ≡ ok n'
    → (n' ≡ written st es n) × (ltb max_content_size (dir_len es) ≡ false)
write_dir-ok st es n n' d h = ground (arith, write_dir_lem st es n d)

-- A listing that is no longer than one that fits is written.
write_dir_fits :
    (st : Stamp) (es : List DirEntry) (n : Node)
    → n.kind ≡ NodeKind.directory
    → dir_len es ≤ max_content_size
    → write_dir st es n ≡ ok (written st es n)
write_dir_fits st es n d f = ground (arith, write_dir_lem st es n d)

pub written-IsDirectory :
    (st : Stamp) (es : List DirEntry) (n : Node)
    → n.kind ≡ NodeKind.directory
    → Distinct es
    → ltb max_content_size (dir_len es) ≡ false
    → IsDirectory (written st es n) es
written-IsDirectory st es n d u f = record {
  is_directory = d;
  holds = refl;
  distinct = u;
  fits = ltb→le _ _ f;
}

module _ {n : Node} {es : List DirEntry} (d : IsDirectory n es) where
  pub read_dir_lem : read_dir n ≡ ok es
  unfolding read_dir
  read_dir_lem = ground (arith, d.holds)

  pub lookup_lem : (name : Text) → lookup name n ≡ ok (find_entry name es)
  unfolding lookup
  lookup_lem name = ground (arith, d.holds, d.is_directory)

-- A new directory is well formed and empty, with the drawn id and no link.
pub new_directory_lem :
    (sd : Seed)
    → (n : Node) × (new_directory sd ≡ ok n) × IsDirectory n [] × (n.id ≡ sd.id) × (n.nlink ≡ 0)
unfolding new_directory dir_len content_len
new_directory_lem sd = (
  _,
  refl,
  record { is_directory = refl; holds = refl; distinct = tt; fits = omega arith },
  refl,
  refl,
)

-- AddEntry ends in one of four ways: an empty name is an invalid argument, a name that is there
-- already exists, a listing that would be longer than 4096 bytes is an invalid argument, and else the
-- entry is written behind the others.
pub add_entry_lem :
    (st : Stamp) (name : Text) (child n : Node) (es : List DirEntry)
    → IsDirectory n es
    → add_entry st name child n ≡ (
        if is_nil name
        then err Kind.invalid_argument
        else if is_some (find_entry name es)
        then err Kind.already_exists
        else if ltb max_content_size (dir_len (es ++ entry_of name child ∷ []))
        then err Kind.invalid_argument
        else ok (written st (es ++ entry_of name child ∷ []) n))
unfolding add_entry content_len
add_entry_lem st name child n es d = ground (arith, d.holds, d.is_directory)

pub add_entry_ok :
    (st : Stamp) (name : Text) (child n n' : Node) (es : List DirEntry)
    → IsDirectory n es
    → add_entry st name child n ≡ ok n'
    → (find_entry name es ≡ none)
      × (ltb max_content_size (dir_len (es ++ entry_of name child ∷ [])) ≡ false)
      × (n' ≡ written st (es ++ entry_of name child ∷ []) n)
add_entry_ok st name child n n' es d h = ground (arith, add_entry_lem st name child n es d)

-- After AddEntry has succeeded on a well-formed directory it is well formed again, the new name leads to
-- the child, and every other name leads where it led before.
pub lookup-add_entry :
    (st : Stamp) (name : Text) (child n n' : Node) (es : List DirEntry)
    → IsDirectory n es
    → add_entry st name child n ≡ ok n'
    → IsDirectory n' (es ++ entry_of name child ∷ [])
      × ((m : Text)
          → lookup m n' ≡ ok (if name =s= m then some (entry_of name child) else find_entry m es))
lookup-add_entry st name child n n' es d h =
    let (new, short, e) = add_entry_ok st name child n n' es d h in
    let d' : IsDirectory n' (es ++ entry_of name child ∷ []) = rw e (
      written-IsDirectory st (es ++ entry_of name child ∷ []) n d.is_directory
        (Distinct-append es (entry_of name child) d.distinct new) short) in
    (d', λ m. rw (lookup_lem d' m, find_entry-append_new m es (entry_of name child) new))

-- RemoveEntry reports a name that is not there, and else writes the listing without it, unless that
-- is longer than 4096 bytes.
pub remove_entry_lem :
    (st : Stamp) (name : Text) (n : Node) (es : List DirEntry)
    → IsDirectory n es
    → remove_entry st name n ≡ elim (find_entry name es) [
      | none ↦ err Kind.not_found
      | some _ ↦ write_dir st (without name es) n
    ]
unfolding remove_entry
remove_entry_lem st name n es d =
    ground (arith, d.holds, d.is_directory, remove_first_lem name es d.distinct)

shorter :
    (name : Text) {n : Node} (es : List DirEntry)
    → IsDirectory n es
    → dir_len (without name es) ≤ max_content_size
shorter name es d = omega (arith, d.fits, dir_len-without name es)

without-IsDirectory :
    (st : Stamp) (name : Text) (n : Node) (es : List DirEntry)
    → IsDirectory n es
    → IsDirectory (written st (without name es) n) (without name es)
without-IsDirectory st name n es d = record {
  is_directory = d.is_directory;
  holds = refl;
  distinct = Distinct-without name es d.distinct;
  fits = shorter name es d;
}

-- RemoveEntry succeeds on a directory exactly when the name is there, and never for want of space;
-- then the directory is well formed, the name leads nowhere, and every other name leads where it
-- led before.
pub lookup-remove_entry :
    (st : Stamp) (name : Text) (n : Node) (es : List DirEntry)
    → IsDirectory n es
    → ((find_entry name es ≡ none) × (remove_entry st name n ≡ err Kind.not_found))
      ⊎ ((n' : Node) × (remove_entry st name n ≡ ok n')
          × IsDirectory n' (without name es)
          × ((m : Text) → lookup m n' ≡ ok (if name =s= m then none else find_entry m es)))
lookup-remove_entry st name n es d = elim (Option-cases (find_entry name es)) [
  | inl absent ↦ inl (absent, remove_entry_lem st name n es d ∙ rw absent refl)
  | inr (e, found) ↦ inr (
    written st (without name es) n,
    remove_entry_lem st name n es d
        ∙ rw found (write_dir_fits st (without name es) n d.is_directory (shorter name es d)),
    without-IsDirectory st name n es d,
    λ m. rw (lookup_lem (without-IsDirectory st name n es d) m, find_entry-without name m es),
  )
]

-- Removing what was just added gives the old listing back.
pub remove_entry-add_entry :
    (st st' : Stamp) (name : Text) (child n n' : Node) (es : List DirEntry)
    → IsDirectory n es
    → add_entry st name child n ≡ ok n'
    → (n'' : Node) × (remove_entry st' name n' ≡ ok n'') × IsDirectory n'' es
remove_entry-add_entry st st' name child n n' es d h =
    let all = es ++ entry_of name child ∷ [] in
    let (new, short, e) = add_entry_ok st name child n n' es d h in
    let (d', found) = lookup-add_entry st name child n n' es d h in
    let back : without name all ≡ es = without-append es (entry_of name child) new in
    let known : find_entry name all ≡ some (entry_of name child) =
      find_entry-append_new name es (entry_of name child) new ∙ rw =s=_refl refl in
    (
      written st' es n',
      remove_entry_lem st' name n' all d'
          ∙ rw (known, back) (write_dir_fits st' es n' d'.is_directory d.fits),
      record { is_directory = d'.is_directory; holds = refl; distinct = d.distinct; fits = d.fits },
    )

keep_unlisted-IsDirectory :
    (st : Stamp) (names : List Text) (n : Node) (es : List DirEntry)
    → IsDirectory n es
    → IsDirectory (written st (keep_unlisted names es) n) (keep_unlisted names es)
keep_unlisted-IsDirectory st names n es d = record {
  is_directory = d.is_directory;
  holds = refl;
  distinct = Distinct-keep_unlisted names es d.distinct;
  fits = omega (arith, d.fits, dir_len-keep_unlisted names es);
}

keep_none : (es : List DirEntry) → keep_unlisted [] es ≡ es
unfolding keep_unlisted listed
keep_none [] = refl
keep_none (x ∷ es) = rw (keep_none es)

unchanged :
    (n : Node) (names : List Text) (es : List DirEntry)
    → IsDirectory n es
    → (length (keep_unlisted names es) == length es) ≡ true
    → IsDirectory n (keep_unlisted names es)
unchanged n names es d same = rw (keep_unlisted_all names es same) d

after_removal :
    (names : List Text) (n : Node) (es : List DirEntry)
    → IsDirectory n (keep_unlisted names es)
    → (m : Text) → lookup m n ≡ ok (if listed m names then none else find_entry m es)
after_removal names n es d m = rw (lookup_lem d m, find_entry-keep_unlisted names m es)

changed :
    (names : List Text) (es : List DirEntry)
    → (length (keep_unlisted names es) == length es) ≡ false
    → keep_unlisted names es ≡ es
    → ⊥
changed names es differ e = ground (arith, ap length e)

-- RemoveEntries always succeeds on a directory, and drops exactly the listed names: names that are
-- not there are passed over, and with nothing to drop the inode is not written.
pub lookup-remove_entries :
    (st : Stamp) (names : List Text) (n : Node) (es : List DirEntry)
    → IsDirectory n es
    → (n' : Node) × (remove_entries st names n ≡ ok n')
      × IsDirectory n' (keep_unlisted names es)
      × ((m : Text) → lookup m n' ≡ ok (if listed m names then none else find_entry m es))
      × (keep_unlisted names es ≡ es → n' ≡ n)
unfolding remove_entries listed
lookup-remove_entries st [] n es d =
    (n, ground (arith, d.is_directory), rw (keep_none es) d, λ m. lookup_lem d m, λ _. refl)
lookup-remove_entries st (x ∷ names) n es d =
    elim (Bool-cases (length (keep_unlisted (x ∷ names) es) == length es)) [
      | inl same ↦ (
        n,
        ground (arith, d.is_directory, d.holds, same),
        unchanged n (x ∷ names) es d same,
        after_removal (x ∷ names) n es (unchanged n (x ∷ names) es d same),
        λ _. refl,
      )
      | inr differ ↦ (
        written st (keep_unlisted (x ∷ names) es) n,
        ground (
          arith,
          d.is_directory,
          d.holds,
          differ,
          write_dir_fits st (keep_unlisted (x ∷ names) es) n d.is_directory
              (keep_unlisted-IsDirectory st (x ∷ names) n es d).fits,
        ),
        keep_unlisted-IsDirectory st (x ∷ names) n es d,
        after_removal (x ∷ names) _ es (keep_unlisted-IsDirectory st (x ∷ names) n es d),
        λ e. absurd (changed (x ∷ names) es differ e),
      )
    ]
