-- ===== src/Heap/Lists/Content.antt =====
-- `list_content` of server/list.c on the heap answers as it does on the list.
use ssdd_final.Base.{
  ℕ, zero, suc, ◌+◌, ◌≡◌, ◌⊎◌, ◌<◌, refl, ap, if◌then◌else◌, Bool, true, false, some, List, [], ◌∷◌,
  length, arith, ◌==◌, Bool-cases, inl, inr,
}
use ssdd_final.CString.{Bytes, strcmp_eq, strncpy, is_set}
use ssdd_final.Registry.Defs.{Node, ℤ, pos, done, ◌>>=◌, ◌>>◌}
use ssdd_final.Registry.Defs
use ssdd_final.Registry.Lists
use ssdd_final.Registry.Lists.{
  UserEntry, UserChain, cell, null, raw, UsersReply, FileEntry, FilesReply,
}
use ssdd_final.Registry.Invariant.{ready}
use ssdd_final.Registry.Refines.{entered}
use ssdd_final.Threads.{act}
use ssdd_final.Heap.{FileCell, Mem, Code, file, limit, get_messages}
use ssdd_final.Heap.Chain.{prejoin, first, length-Below, Below-Suffix}
use ssdd_final.Heap.Layout.{PlacedFile, Placed, file_kind, node_kind, erase, erase_files, Layout}
use ssdd_final.Heap.Layout.Frame.{Layout-file, Apart-above}
use ssdd_final.Heap.Rules.{file_run}
use ssdd_final.Heap.Lists.{
  read_file, link_file, fill_files, target_found, content_found, target_loop, content_loop, reply,
}
use ssdd_final.Heap.Lists.Reads.{
  Reads, returns, reads, Answers, answers, looks, Reads-then, Answers-then, is_node, Answers-node,
}

abbrev file_entry : PlacedFile → FileEntry
file_entry f = record {
  filename = strncpy f.file.filename;
  description = strncpy f.file.description;
}

files_cases :
    (fs : List PlacedFile)
    → (fs ≡ []) ⊎ ((f : PlacedFile) × (rest : List PlacedFile) × (fs ≡ f ∷ rest))
files_cases [] = inl refl
files_cases (f ∷ rest) = inr (f, rest, refl)

module _ (m : Mem) (before next : List Placed) (p : Placed)
    (l : Layout m (prejoin before (p ∷ next))) where
  -- where the loop over the files of a user stands
  module _ (passed rest : List PlacedFile) (f : PlacedFile)
      (e : p.files ≡ prejoin passed (f ∷ rest)) where
    is_file : (f.at == 0) ≡ false
    is_file =
        let mine = (Apart-above m.fresh before (p ∷ next) l.apart).1.0 in
        ground (arith, (Below-Suffix file_kind m.fresh passed (f ∷ rest) (rw e at mine)).below.0)

    Reads-file :
        {A : Type 0} (k : FileCell → Code A) (a : A)
        → Reads m (k (file_kind.cell f (first file_kind rest))) a
        → Reads m (act (file f.at) k) a
    Reads-file k a h = reads _ (file_run m f.at (Layout-file m before next p passed rest f l e)) h

    Reads-read_file : Reads m (read_file f.at) (file_entry f)
    unfolding read_file
    Reads-read_file = Reads-file _ _ (Reads-file _ _ (returns _))

  module _ (room : ℕ → Bool) (all : (j : ℕ) → room j ≡ true) where
    Reads-fill_files :
        (n i : ℕ) (passed rest : List PlacedFile)
        → length rest < n
        → p.files ≡ prejoin passed rest
        → (x : List FileEntry) × Reads m (fill_files n room i true (first file_kind rest)) x
          × (Lists.fill_files room i true (erase_files rest) ≡ some x)
    unfolding fill_files Lists.fill_files link_file
    Reads-fill_files zero i passed rest h e = absurd (omega (arith, h))
    Reads-fill_files (suc n) i passed [] h e = ([], returns _, refl)
    Reads-fill_files (suc zero) i passed (f ∷ []) h e = absurd (omega (arith, h))
    Reads-fill_files (suc (suc n)) i passed (f ∷ []) h e =
        let off : (f.at == 0) ≡ false = is_file passed [] f e in
        let run : Reads m (fill_files (suc (suc n)) room i true f.at) (file_entry f ∷ []) = rw off (
          Reads-then (link_file (fill_files (suc n) room) room i true f.at)
            (Reads-read_file passed [] f e)
            (Reads-file passed [] f e _ _ (Reads-file passed [] f e _ _ (returns _)))) in
        (_, run, refl)
    Reads-fill_files (suc n) i passed (f ∷ g ∷ rest) h e =
        let off : (f.at == 0) ≡ false = is_file passed (g ∷ rest) f e in
        let (x, r, e') = Reads-fill_files n (i + 1) (f ∷ passed) (g ∷ rest) (omega (arith, h)) e in
        let run : Reads m (fill_files (suc n) room i true f.at) (file_entry f ∷ x) = rw off (
          Reads-then (link_file (fill_files n room) room i true f.at)
            (Reads-read_file passed (g ∷ rest) f e)
            (Reads-file passed (g ∷ rest) f e _ _ (
              Reads-file passed (g ∷ rest) f e _ _
                (rw (is_file (f ∷ passed) rest g e, all i) (Reads-then _ r (returns _)))))) in
        (_, run, rw (all i, e'))

    Answers-target_found :
        (us : List Node)
        → (r : FilesReply) × Answers m (target_found room true p.at) r
          × ((do
            entries ← Lists.or_fault (Lists.fill_files room 0 true (erase_files p.files))
            Defs.unlock
            Defs.pure (FilesReply.listed entries))
                (entered us)
              ≡ done r (ready us))
    unfolding target_found reply Lists.or_fault Lists.fill_files Defs.unlock limit
    Answers-target_found us = elim (files_cases p.files) [
      | inl empty ↦
          let run : Answers m (target_found room true p.at) (FilesReply.listed []) =
            Answers-node m before next p l _ _ (rw empty (answers _)) in
          (_, run, rw empty)
      | inr (f, rest, full) ↦
          let mine = (Apart-above m.fresh before (p ∷ next) l.apart).1.0 in
          let (x, r, e) =
            Reads-fill_files m.fresh 0 [] p.files
              (length-Below file_kind m.fresh p.files l.room mine) refl in
          let off : (first file_kind p.files == 0) ≡ false = rw full (is_file [] rest f full) in
          let run : Answers m (target_found room true p.at) (FilesReply.listed x) =
            Answers-node m before next p l _ _ (
              rw off (
                Answers-node m before next p l _ _
                  (looks m.fresh refl (Answers-then _ r (answers _))))) in
          (_, run, rw e)
    ]

module _ (m : Mem) (room : ℕ → Bool) (all : (j : ℕ) → room j ≡ true) (us : List Node) where
  Answers-target_loop :
      (target : Bytes) (n : ℕ) (before next : List Placed)
      → length next < n
      → Layout m (prejoin before next)
      → (r : FilesReply) × Answers m (target_loop n room true target (first node_kind next)) r
        × (Lists.target_loop room true target (erase next) (entered us) ≡ done r (ready us))
  unfolding target_loop Lists.target_loop reply Defs.unlock
  Answers-target_loop target zero before next h l = absurd (omega (arith, h))
  Answers-target_loop target (suc n) before [] h l = (FilesReply.failed (pos 3), answers _, refl)
  Answers-target_loop target (suc n) before (p ∷ next) h l =
      let off : (p.at == 0) ≡ false = is_node m before next p l in
      elim (Bool-cases (strcmp_eq p.username target)) [
        | inl hit ↦
            let (r, a, e) = Answers-target_found m before next p l room all us in
            let run : Answers m (target_loop (suc n) room true target p.at) r =
              rw off (Answers-node m before next p l _ _ (rw hit a)) in
            (r, run, rw (hit, e))
        | inr miss ↦
            let (r, a, e) = Answers-target_loop target n (p ∷ before) next (omega (arith, h)) l in
            let run : Answers m (target_loop (suc n) room true target p.at) r = rw off (
              Answers-node m before next p l _ _
                (rw miss (Answers-node m before next p l _ _ a))) in
            (r, run, rw (miss, e))
      ]

  Answers-content_found :
      (target : Bytes) (before next : List Placed) (p : Placed)
      → Layout m (prejoin before (p ∷ next))
      → (r : FilesReply) × Answers m (content_found room true target p.at) r
        × ((if is_set p.ip
                then Lists.target_loop room true target (erase (prejoin before (p ∷ next)))
                else (do Defs.unlock; Defs.pure (FilesReply.failed (pos 2))))
              (entered us)
            ≡ done r (ready us))
  unfolding content_found reply Defs.unlock get_messages limit
  Answers-content_found target before next p l = elim (Bool-cases (is_set p.ip)) [
    | inl on ↦
        let ps = prejoin before (p ∷ next) in
        let (r, a, e) =
          Answers-target_loop target m.fresh [] ps
            (length-Below node_kind m.fresh ps l.room l.below) l in
        let run : Answers m (content_found room true target p.at) r =
          Answers-node m before next p l _ _ (
            rw on
              (looks (first node_kind ps) (ap (λ q. some (q, m)) l.head) (looks m.fresh refl a))) in
        (r, run, rw (on, e))
    | inr off ↦
        let run : Answers m (content_found room true target p.at) (FilesReply.failed (pos 2)) =
          Answers-node m before next p l _ _ (rw off (answers _)) in
        (_, run, rw off)
  ]

  Answers-content_loop :
      (name target : Bytes) (n : ℕ) (before next : List Placed)
      → length next < n
      → Layout m (prejoin before next)
      → (r : FilesReply) × Answers m (content_loop n room true name target (first node_kind next)) r
        × (Lists.content_loop room true name target
              (erase (prejoin before next))
              (erase next)
              (entered us)
            ≡ done r (ready us))
  unfolding content_loop Lists.content_loop reply Defs.unlock
  Answers-content_loop name target zero before next h l = absurd (omega (arith, h))
  Answers-content_loop name target (suc n) before [] h l =
      (FilesReply.failed (pos 1), answers _, refl)
  Answers-content_loop name target (suc n) before (p ∷ next) h l =
      let off : (p.at == 0) ≡ false = is_node m before next p l in
      elim (Bool-cases (strcmp_eq p.username name)) [
        | inl hit ↦
            let (r, a, e) = Answers-content_found target before next p l in
            let run : Answers m (content_loop (suc n) room true name target p.at) r =
              rw off (Answers-node m before next p l _ _ (rw hit a)) in
            (r, run, rw (hit, e))
        | inr miss ↦
            let (r, a, e) =
              Answers-content_loop name target n (p ∷ before) next (omega (arith, h)) l in
            let run : Answers m (content_loop (suc n) room true name target p.at) r = rw off (
              Answers-node m before next p l _ _
                (rw miss (Answers-node m before next p l _ _ a))) in
            (r, run, rw (miss, e))
      ]

-- behind the lock
pub Answers-list_content :
    (m : Mem) (room : ℕ → Bool) (all : (j : ℕ) → room j ≡ true) (name target : Bytes)
    (ps : List Placed)
    → Layout m ps
    → (r : FilesReply) × Answers m
        (act get_messages λ current. act limit λ n. content_loop n room true name target current)
        r
      × (Lists.list_content room true name target (ready (erase ps)) ≡ done r (ready (erase ps)))
unfolding get_messages limit Lists.list_content Defs.lock Defs.get_messages
Answers-list_content m room all name target ps l =
    let (r, a, e) =
      Answers-content_loop m room all (erase ps) name target m.fresh [] ps
        (length-Below node_kind m.fresh ps l.room l.below) l in
    (r, looks (first node_kind ps) (ap (λ q. some (q, m)) l.head) (looks m.fresh refl a), e)
