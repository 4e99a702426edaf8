-- ===== src/Registry/Files/Refine.antt =====
-- `register_file_from_user` and `unregister_file_from_user` implement the directory's `publish` and
-- `delete`.
use ssdd_final.Base.{
  ◌≡◌, refl, Bool, true, false, none, some, List, [], ◌∷◌, arith, inl, inr, Bool-cases,
  Option-cases, fun_ext, All,
}
use ssdd_final.CString.{Bytes, strcmp_eq, strncpy_self, is_set, IsTerminated}
use ssdd_final.Directory.{put, publish, delete}
use ssdd_final.Registry.Defs.{FileNode, Node, Store, pos, pure, ◌>>◌, unlock, set_messages, rejoin}
use ssdd_final.Registry.Files.{
  publish_loop, register_file_from_user, rejoin_files, delete_loop, unregister_file_from_user,
}
use ssdd_final.Registry.FileSearch.{
  find_file, remove_file, DistinctFiles, find_file-remove_file, remove_file-DistinctFiles,
}
use ssdd_final.Registry.Search.{Found, find_user, username-find_user}
use ssdd_final.Registry.Invariant.{IsTidyFile, IsTidyNode, IsValid, view, All-find_user}
use ssdd_final.Registry.Refines.{Refines, entered, Refines-unlock, Refines-replace, walk-Refines}

module _ (room : Bool) (file description : Bytes) (before : List Node) (u : Node) (next : List Node)
    (t : Store) where
  publish_loop-some :
      (fs : List FileNode) (old : Bytes)
      → find_file fs file ≡ some old
      → publish_loop room file description before u next fs t ≡ (unlock >> pure (pos 3)) t
  unfolding register_file_from_user find_file
  publish_loop-some [] old h = cc
  publish_loop-some (f ∷ fs) old h = elim (Bool-cases (strcmp_eq f.filename file)) [
    | inl hit ↦ rw hit
    | inr miss ↦ rw miss (publish_loop-some fs old (rw miss at h))
  ]

  publish_loop-none :
      (fs : List FileNode)
      → find_file fs file ≡ none
      → publish_loop room file description before u next fs t
        ≡ publish_loop room file description before u next [] t
  unfolding register_file_from_user find_file
  publish_loop-none [] h = refl
  publish_loop-none (f ∷ fs) h = elim (Bool-cases (strcmp_eq f.filename file)) [
    | inl hit ↦ absurd (ground (arith, hit, h))
    | inr miss ↦ rw miss (publish_loop-none fs (rw miss at h))
  ]

module _ (file : Bytes) (before : List Node) (u : Node) (next : List Node) (t : Store) where
  delete_loop-some :
      (passed fs : List FileNode) (old : Bytes)
      → find_file fs file ≡ some old
      → delete_loop file before u next passed fs t
        ≡ (do
          set_messages (
              rejoin before
                (record u { list_files = rejoin_files passed (remove_file file fs) } ∷ next))
          unlock
          pure (pos 0))
            t
  unfolding unregister_file_from_user find_file remove_file
  delete_loop-some passed [] old h = cc
  delete_loop-some passed (f ∷ fs) old h = elim (Bool-cases (strcmp_eq f.filename file)) [
    | inl hit ↦ rw hit
    | inr miss ↦ rw miss (delete_loop-some (f ∷ passed) fs old (rw miss at h))
  ]

  delete_loop-none :
      (passed fs : List FileNode)
      → find_file fs file ≡ none
      → delete_loop file before u next passed fs t ≡ (unlock >> pure (pos 3)) t
  unfolding unregister_file_from_user find_file
  delete_loop-none passed [] h = refl
  delete_loop-none passed (f ∷ fs) h = elim (Bool-cases (strcmp_eq f.filename file)) [
    | inl hit ↦ absurd (ground (arith, hit, h))
    | inr miss ↦ rw miss (delete_loop-none (f ∷ passed) fs (rw miss at h))
  ]

abbrev file_node : Bytes → Bytes → FileNode
file_node file description = record { filename = file; description = description }

find_file-cons :
    (file description : Bytes) (fs : List FileNode)
    → find_file (file_node file description ∷ fs) ≡ put file (some description) (find_file fs)
unfolding find_file
find_file-cons file description fs = refl

All-remove_file :
    (file : Bytes) (fs : List FileNode) → All IsTidyFile fs → All IsTidyFile (remove_file file fs)
unfolding remove_file
All-remove_file file [] a = tt
All-remove_file file (f ∷ fs) a = elim (Bool-cases (strcmp_eq f.filename file)) [
  | inl hit ↦ rw hit a.1
  | inr miss ↦ rw miss (a.0, All-remove_file file fs a.1)
]

files-IsTidyNode :
    (u : Node) (fs : List FileNode)
    → IsTidyNode u
    → All IsTidyFile fs
    → DistinctFiles fs
    → IsTidyNode (record u { list_files = fs })
files-IsTidyNode u fs p fit d = record {
  username_fits = p.username_fits;
  ip_fits = p.ip_fits;
  port_fits = p.port_fits;
  offline = p.offline;
  files_fit = fit;
  files_distinct = d;
}

module _ {s : Store} (v : IsValid s) (name : Bytes) (u : Node)
    (h : find_user name s.messages ≡ some u) (on : is_set u.ip ≡ true)
    (f : Found name [] s.messages u) where
  tidy_found : IsTidyNode u
  tidy_found = All-find_user IsTidyNode name s.messages u v.tidy.nodes h

  publish_new :
      (room : Bool) (file description : Bytes)
      → IsTerminated file
      → IsTerminated description
      → find_file u.list_files file ≡ none
      → Refines
          (publish_loop room file description f.pre u f.post [] (entered s.messages))
          (publish room name file description (view s.messages))
  unfolding register_file_from_user publish
  publish_new false file description fits fits' new =
      rw (h, publish, on, new) (Refines-unlock v.tidy (pos 4))
  publish_new true file description fits fits' new =
      rw
        (
          h,
          publish,
          on,
          new,
          strncpy_self file fits,
          strncpy_self description fits',
          ← find_file-cons file description u.list_files,
        )
        (Refines-replace v.tidy h f (pos 0)
          (record u { list_files = file_node file description ∷ u.list_files })
          (username-find_user name s.messages u h)
          (files-IsTidyNode u (file_node file description ∷ u.list_files) tidy_found
            (record { filename_fits = fits; description_fits = fits' }, tidy_found.files_fit)
            (new, tidy_found.files_distinct)))

  delete_old :
      (file old : Bytes)
      → find_file u.list_files file ≡ some old
      → Refines
          (delete_loop file f.pre u f.post [] u.list_files (entered s.messages))
          (delete name file (view s.messages))
  unfolding unregister_file_from_user delete
  delete_old file old there =
      rw
        (
          delete_loop-some file f.pre u f.post (entered s.messages) [] u.list_files old there,
          h,
          delete,
          on,
          there,
          ← fun_ext (λ k. find_file-remove_file k file u.list_files tidy_found.files_distinct),
        )
        (Refines-replace v.tidy h f (pos 0)
          (record u { list_files = remove_file file u.list_files })
          (username-find_user name s.messages u h)
          (files-IsTidyNode u (remove_file file u.list_files) tidy_found
            (All-remove_file file u.list_files tidy_found.files_fit)
            (remove_file-DistinctFiles file u.list_files tidy_found.files_distinct)))

module _ {s : Store} (v : IsValid s) where
  -- From a valid store, with a file name and a description that fit their fields,
  -- `register_file_from_user` returns the code of the directory's `publish`, leaves the directory
  -- that it leaves, and ends in a valid store with the mutex free, whether `malloc` succeeds or not.
  pub register_file_from_user-Refines :
      (room : Bool) (name file description : Bytes)
      → IsTerminated file
      → IsTerminated description
      → Refines
          (register_file_from_user room name file description s)
          (publish room name file description (view s.messages))
  unfolding register_file_from_user publish
  register_file_from_user-Refines room name file description fits fits' =
      walk-Refines name _ (publish room name file description) v (λ e. rw (e, publish))
        λ u h f. elim (Bool-cases (is_set u.ip)) [
          | inr off ↦ rw (h, publish, off) (Refines-unlock v.tidy (pos 2))
          | inl on ↦ elim (Option-cases (find_file u.list_files file)) [
            | inl new ↦
                rw
                  (
                    on,
                    publish_loop-none room file description f.pre u f.post (entered s.messages)
                        u.list_files new,
                  )
                  (publish_new v name u h on f room file description fits fits' new)
            | inr (old, there) ↦
                rw
                  (
                    h,
                    publish,
                    on,
                    there,
                    publish_loop-some room file description f.pre u f.post (entered s.messages)
                        u.list_files old there,
                  )
                  (Refines-unlock v.tidy (pos 3))
          ]
        ]

  -- From a valid store, `unregister_file_from_user` returns the code of the directory's `delete`,
  -- leaves the directory that it leaves, and ends in a valid store with the mutex free.
  pub unregister_file_from_user-Refines :
      (name file : Bytes)
      → Refines (unregister_file_from_user name file s) (delete name file (view s.messages))
  unfolding unregister_file_from_user delete
  unregister_file_from_user-Refines name file =
      walk-Refines name _ (delete name file) v (λ e. rw (e, delete))
        λ u h f. elim (Bool-cases (is_set u.ip)) [
          | inr off ↦ rw (h, delete, off) (Refines-unlock v.tidy (pos 2))
          | inl on ↦ elim (Option-cases (find_file u.list_files file)) [
            | inl none_there ↦
                rw
                  (
                    h,
                    delete,
                    on,
                    none_there,
                    delete_loop-none file f.pre u f.post (entered s.messages) [] u.list_files
                        none_there,
                  )
                  (Refines-unlock v.tidy (pos 3))
            | inr (old, there) ↦ rw on (delete_old v name u h on f file old there)
          ]
        ]
