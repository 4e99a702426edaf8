-- ===== src/Registry/Lists/Content.antt =====
-- What `list_content` answers: the files of the other user, each once, as the directory has them.
use ssdd_final.Base.{
  ℕ, ◌+◌, ◌≤◌, ◌≡◌, refl, Bool, true, false, Option, none, some, List, [], ◌∷◌, arith,
  if◌then◌else◌, inl, inr, Bool-cases, Option-cases, All,
}
use ssdd_final.CString.{Bytes, strcmp_eq, strcmp_eq_iff, strncpy, strncpy_self, is_set}
use ssdd_final.Directory.{Account, Directory}
use ssdd_final.Registry.Defs.{FileNode, Node, Store, pos, Run, done, Op, pure, ◌>>=◌, ◌>>◌, unlock}
use ssdd_final.Registry.Lists.{
  FileEntry, fill_files, or_fault, FilesReply, target_loop, content_loop, list_content,
}
use ssdd_final.Registry.FileSearch.{find_file, DistinctFiles}
use ssdd_final.Registry.Search.{find_user}
use ssdd_final.Registry.Invariant.{
  IsTidyFile, IsTidyNode, IsValid, restore, account, view, All-find_user,
}

-- the description of the first entry with the name
unfoldable pub find_entry : List FileEntry → Bytes → Option Bytes
find_entry [] file = none
find_entry (e ∷ es) file =
    if strcmp_eq e.filename file then some e.description else find_entry es file

-- how often a file name stands among the entries
unfoldable pub count_entry : List FileEntry → Bytes → ℕ
count_entry [] file = 0
count_entry (e ∷ es) file = (if strcmp_eq e.filename file then 1 else 0) + count_entry es file

-- the entries of the files, in the order of the list
unfoldable pub entries_of : List FileNode → List FileEntry
entries_of [] = []
entries_of (f ∷ fs) =
    record { filename = strncpy f.filename; description = strncpy f.description } ∷ entries_of fs

-- Where every `malloc` succeeds, nothing is written through NULL.
fill_files-entries_of :
    (room : ℕ → Bool) (i : ℕ) (fs : List FileNode)
    → ((j : ℕ) → room j ≡ true)
    → fill_files room i true fs ≡ some (entries_of fs)
unfolding list_content entries_of
fill_files-entries_of room i [] all = refl
fill_files-entries_of room i (f ∷ fs) all = rw (all i, fill_files-entries_of room (i + 1) fs all)

find_entry-entries_of :
    (file : Bytes) (fs : List FileNode)
    → All IsTidyFile fs
    → find_entry (entries_of fs) file ≡ find_file fs file
unfolding entries_of find_entry find_file
find_entry-entries_of file [] t = refl
find_entry-entries_of file (f ∷ fs) t = rw (
  strncpy_self f.filename t.0.filename_fits,
  strncpy_self f.description t.0.description_fits,
  find_entry-entries_of file fs t.1,
)

count_entry-none :
    (file : Bytes) (fs : List FileNode)
    → All IsTidyFile fs
    → find_file fs file ≡ none
    → count_entry (entries_of fs) file ≡ 0
unfolding entries_of count_entry find_file
count_entry-none file [] t h = refl
count_entry-none file (f ∷ fs) t h =
    ground (arith, strncpy_self f.filename t.0.filename_fits, count_entry-none file fs t.1)

count_entry-entries_of :
    (file : Bytes) (fs : List FileNode)
    → All IsTidyFile fs
    → DistinctFiles fs
    → count_entry (entries_of fs) file ≤ 1
unfolding entries_of count_entry find_file
count_entry-entries_of file [] t d = omega arith
count_entry-entries_of file (f ∷ fs) t d = ground (
  arith,
  strcmp_eq_iff f.filename file,
  strncpy_self f.filename t.0.filename_fits,
  count_entry-entries_of file fs t.1 d.1,
  count_entry-none f.filename fs t.1 d.0,
  count_entry-none file fs t.1,
)

-- What `list_content` may answer in store `s` with directory `d`, on each of its branches. The
-- store is left as it was.
pub data FilesAnswer (s : Store) (d : Directory) (name target : Bytes)
    : Run FilesReply → Type 0 where
  unknown : d name ≡ none → FilesAnswer s d name target (done (FilesReply.failed (pos 1)) s)
  offline :
      {a : Account}
      → d name ≡ some a
      → is_set a.ip ≡ false
      → FilesAnswer s d name target (done (FilesReply.failed (pos 2)) s)
  no_target :
      {a : Account}
      → d name ≡ some a
      → is_set a.ip ≡ true
      → d target ≡ none
      → FilesAnswer s d name target (done (FilesReply.failed (pos 3)) s)
  answered :
      {a b : Account} {entries : List FileEntry}
      → d name ≡ some a
      → is_set a.ip ≡ true
      → d target ≡ some b
      → ((file : Bytes) → find_entry entries file ≡ b.files file)
      → ((file : Bytes) → count_entry entries file ≤ 1)
      → FilesAnswer s d name target (done (FilesReply.listed entries) s)

module _ (room : ℕ → Bool) (first : Bool) where
  abbrev at_target : Option Node → Op FilesReply
  at_target none = unlock >> pure (FilesReply.failed (pos 3))
  at_target (some u) = do
    es ← or_fault (fill_files room 0 first u.list_files)
    unlock
    pure (FilesReply.listed es)

  target_loop_lem :
      (target : Bytes) (us : List Node) (t : Store)
      → target_loop room first target us t ≡ at_target (find_user target us) t
  unfolding list_content find_user
  target_loop_lem target [] t = refl
  target_loop_lem target (u ∷ us) t = elim (Bool-cases (strcmp_eq u.username target)) [
    | inl hit ↦ rw hit
    | inr miss ↦ rw miss (target_loop_lem target us t)
  ]

  module _ (name target : Bytes) (all : List Node) where
    content_loop-none :
        (us : List Node) (t : Store)
        → find_user name us ≡ none
        → content_loop room first name target all us t
          ≡ content_loop room first name target all [] t
    unfolding list_content find_user
    content_loop-none [] t h = refl
    content_loop-none (u ∷ us) t h = elim (Bool-cases (strcmp_eq u.username name)) [
      | inl hit ↦ absurd (ground (arith, hit, h))
      | inr miss ↦ rw miss (content_loop-none us t (rw miss at h))
    ]

    content_loop-off :
        (us : List Node) (u : Node) (t : Store)
        → find_user name us ≡ some u
        → is_set u.ip ≡ false
        → content_loop room first name target all us t
          ≡ (unlock >> pure (FilesReply.failed (pos 2))) t
    unfolding list_content find_user
    content_loop-off [] u t h off = cc
    content_loop-off (w ∷ us) u t h off = elim (Bool-cases (strcmp_eq w.username name)) [
      | inl hit ↦ let same : w ≡ u = ground (arith, hit, h) in rw (hit, same, off)
      | inr miss ↦ rw miss (content_loop-off us u t (rw miss at h) off)
    ]

    content_loop-on :
        (us : List Node) (u : Node) (t : Store)
        → find_user name us ≡ some u
        → is_set u.ip ≡ true
        → content_loop room first name target all us t ≡ target_loop room first target all t
    unfolding list_content find_user
    content_loop-on [] u t h on = cc
    content_loop-on (w ∷ us) u t h on = elim (Bool-cases (strcmp_eq w.username name)) [
      | inl hit ↦ let same : w ≡ u = ground (arith, hit, h) in rw (hit, same, on)
      | inr miss ↦ rw miss (content_loop-on us u t (rw miss at h) on)
    ]

-- From a valid store, and where every `malloc` gives a node, `list_content` answers code 1 to a name
-- that is not registered, code 2 to a user that is offline, and code 3 where the target is not
-- registered. Otherwise it answers entries that give each file name the description that the
-- target's account has for it, none to other names, with no name twice. The store stays as it was.
pub list_content-FilesAnswer :
    {s : Store}
    → IsValid s
    → (room : ℕ → Bool) (name target : Bytes) → ((i : ℕ) → room i ≡ true)
    → FilesAnswer s (view s.messages) name target (list_content room true name target s)
unfolding list_content
list_content-FilesAnswer {s} v room name target all =
    let us = s.messages in
    rw v.free (elim (Option-cases (find_user name us)) [
      | inl h ↦
          rw (content_loop-none room true name target us us _ h, restore s v.free) (unknown (rw h))
      | inr (u, h) ↦ elim (Bool-cases (is_set u.ip)) [
        | inr off ↦
            rw (content_loop-off room true name target us us u _ h off, restore s v.free)
              (offline {a = account u} (rw h) off)
        | inl on ↦
            rw (content_loop-on room true name target us us u _ h on, target_loop_lem room true)
              (elim (Option-cases (find_user target us)) [
                | inl h' ↦ rw (h', restore s v.free) (no_target {a = account u} (rw h) on (rw h'))
                | inr (w, h') ↦
                    let p = All-find_user IsTidyNode target us w v.tidy.nodes h' in
                    rw (h', fill_files-entries_of room 0 w.list_files all, restore s v.free)
                      (answered {a = account u} {b = account w} (rw h) on (rw h')
                        (λ k. find_entry-entries_of k w.list_files p.files_fit)
                        (λ k. count_entry-entries_of k w.list_files p.files_fit p.files_distinct))
              ])
      ]
    ])
