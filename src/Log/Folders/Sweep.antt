-- ===== src/Log/Folders/Sweep.antt =====
-- Which files the search of src/Log_Message.cpp leaves.
use imachine_hb_f.Checksum.{Bytes}
use imachine_hb_f.Log.Folders.{
  Folder, no_more, file, folder, other, Search, contains, is_old, remove_file, join_path, removes,
  file_exists, removed_folder, remove_folder, is_searched, sweep,
}
use imachine_hb_f.Log.Folders.Found.{Contains, contains-Contains, contains-append}
use imachine_hb_f.Prelude.{
  ℕ, ◌≡◌, refl, sym, ap, ◌∙◌, inl, inr, Bool, Bool-cases, true, false, ◌&&◌, List, [], length, ltb,
  ◌∷◌, ◌++◌, ◌+◌, ◌*◌, ◌<◌, ◌==◌, arith, if◌then◌else◌,
}

-- A file by its path, and whether all folders above it, the outermost aside, have names of ten bytes and
-- can be opened.
pub record FileAt : Type 0 where
  pub path : Bytes
  pub mtime : ℕ
  pub reached : Bool

-- All files below a folder.
unfoldable pub files : Bytes → Bool → Folder → List FileAt
files path reached no_more = []
files path reached (file name mtime more) =
    record { path = join_path path name; mtime = mtime; reached = reached }
    ∷ files path reached more
files path reached (folder name readable inner more) =
    files (join_path path name) (reached && ((length name == 10) && readable)) inner
    ++ files path reached more
files path reached (other name more) = files path reached more

-- Those that are not to be removed.
unfoldable pub kept : Search → List FileAt → List FileAt
kept s [] = []
kept s (f ∷ fs) =
    let rest = kept s fs in if f.reached && removes s f.path f.mtime then rest else f ∷ rest

kept-append : (s : Search) (fs gs : List FileAt) → kept s (fs ++ gs) ≡ kept s fs ++ kept s gs
unfolding kept
kept-append s [] gs = refl
kept-append s (f ∷ fs) gs = elim (Bool-cases (f.reached && removes s f.path f.mtime)) [
  | inl e ↦ rw e (kept-append s fs gs)
  | inr e ↦ rw e (ap (λ (t : List FileAt). f ∷ t) (kept-append s fs gs))
]

-- Nothing is removed below a folder that is not searched.
kept-files :
    (s : Search) (path : Bytes) (d : Folder) → kept s (files path false d) ≡ files path false d
unfolding kept files
kept-files s path no_more = refl
kept-files s path (file name mtime more) =
    ap
      (λ (t : List FileAt).
        record { path = join_path path name; mtime = mtime; reached = false } ∷ t)
      (kept-files s path more)
kept-files s path (folder name readable inner more) =
    kept-append s (files (join_path path name) false inner) (files path false more)
    ∙ (λ i. kept-files s (join_path path name) inner i ++ kept-files s path more i)
kept-files s path (other name more) = kept-files s path more

files-removed_folder :
    (path name : Bytes) (readable : Bool) (left more : Folder)
    → files path true (removed_folder name readable left more)
      ≡ files (join_path path name) ((length name == 10) && readable) left ++ files path true more
unfolding files removed_folder
files-removed_folder path name readable no_more more = refl
files-removed_folder path name readable (file n t inner) more = refl
files-removed_folder path name readable (folder n r i inner) more = refl
files-removed_folder path name readable (other n inner) more = refl

folder_kept :
    (s : Search) (xs ys fs gs : List FileAt)
    → xs ≡ kept s fs
    → ys ≡ kept s gs
    → xs ++ ys ≡ kept s (fs ++ gs)
folder_kept s xs ys fs gs p q = (λ i. p i ++ q i) ∙ sym (kept-append s fs gs)

files-remove_folder :
    (s : Search) (path name : Bytes) (readable : Bool) (left more : Folder)
    → files path true (remove_folder s (join_path path name) name readable left more)
      ≡ files (join_path path name) ((length name == 10) && readable) left ++ files path true more
unfolding remove_folder files
files-remove_folder s path name readable left more =
    elim (Bool-cases (s.remove (join_path path name))) [
      | inl e ↦ rw e (files-removed_folder path name readable left more)
      | inr e ↦ rw e refl
    ]

files-sweep-kept :
    (s : Search) (path : Bytes) (d : Folder)
    → files path true (sweep s path d) ≡ kept s (files path true d)
unfolding files sweep kept is_searched
files-sweep-kept s path no_more = refl
files-sweep-kept s path (file name mtime more) =
    elim (Bool-cases (removes s (join_path path name) mtime)) [
      | inl e ↦ rw e (files-sweep-kept s path more)
      | inr e ↦ rw e (
          ap
            (λ (t : List FileAt).
              record { path = join_path path name; mtime = mtime; reached = true } ∷ t)
            (files-sweep-kept s path more))
    ]
files-sweep-kept s path (folder name readable inner more) =
    let a = files-sweep-kept s path more in
    let b = files-sweep-kept s (join_path path name) inner in
    let left = sweep s (join_path path name) inner in
    elim (Bool-cases ((length name == 10) && readable)) [
      | inr e ↦
          rw (e, files)
            (rw e (folder_kept s _ _ _ _ (sym (kept-files s (join_path path name) inner)) a))
      | inl e ↦
          let both = folder_kept s _ _ _ _ b a in
          elim (Bool-cases (file_exists inner)) [
            | inl k ↦ rw (e, k, files) (rw e both)
            | inr k ↦
                let r = files-remove_folder s path name readable left (sweep s path more) in
                let r' = (rw e at r) in rw (e, k) (r' ∙ both)
          ]
    ]
files-sweep-kept s path (other name more) = files-sweep-kept s path more

-- What makes a search remove a file: it comes to the file, whose path contains the name and which `stat` finds,
-- at an age of more than `max_days` days of 86400 seconds, and `remove` succeeds.
pub record Goes (s : Search) (f : FileAt) : Type 0 where
  pub found : f.reached ≡ true
  pub named : Contains f.path s.file_name
  pub known : s.stats f.path ≡ true
  pub aged : f.mtime + s.max_days * 86400 < s.now
  pub removed : s.remove f.path ≡ true

-- The second list is the first without the files that go.
pub data Leaves (s : Search) : List FileAt → List FileAt → Type 0 where
  ends : Leaves s [] []
  goes : {f : FileAt} {fs gs : List FileAt} → Goes s f → Leaves s fs gs → Leaves s (f ∷ fs) gs
  stays :
      {f : FileAt} {fs gs : List FileAt} → ¬ Goes s f → Leaves s fs gs → Leaves s (f ∷ fs) (f ∷ gs)

Goes-test : (s : Search) (f : FileAt) → Goes s f → (f.reached && removes s f.path f.mtime) ≡ true
unfolding removes remove_file is_old
Goes-test s f g =
    let (pre, post, q) = g.named in
    let n : contains f.path s.file_name ≡ true = rw q (contains-append pre s.file_name post) in
    let o : ltb (s.max_days * 60 * 60 * 24 + f.mtime) s.now ≡ true = ground (arith, g.aged) in
    rw (g.found, n, g.known, o, g.removed) refl

test-Goes : (s : Search) (f : FileAt) → (f.reached && removes s f.path f.mtime) ≡ true → Goes s f
unfolding removes remove_file is_old
test-Goes s f h = record {
  found = ground (arith, h);
  named = contains-Contains f.path s.file_name (ground (arith, h));
  known = ground (arith, h);
  aged = ground (arith, h);
  removed = ground (arith, h);
}

kept-Leaves : (s : Search) (fs : List FileAt) → Leaves s fs (kept s fs)
unfolding kept
kept-Leaves s [] = ends
kept-Leaves s (f ∷ fs) = elim (Bool-cases (f.reached && removes s f.path f.mtime)) [
  | inl e ↦ rw e (goes (test-Goes s f e) (kept-Leaves s fs))
  | inr e ↦ rw e (stays (λ g. let r = Goes-test s f g in cc) (kept-Leaves s fs))
]

-- Of all files below a folder, in their order, the search takes away exactly those to which all of this applies:
-- every folder between has a name of ten bytes and can be opened; the path contains the name; stat finds the
-- file; it was last changed more than max_days times 86400 seconds ago; and remove succeeds on it.
pub files-sweep :
    (s : Search) (path : Bytes) (d : Folder)
    → Leaves s (files path true d) (files path true (sweep s path d))
files-sweep s path d = rw (files-sweep-kept s path d) (kept-Leaves s (files path true d))
