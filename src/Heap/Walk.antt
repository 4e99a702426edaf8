-- ===== src/Heap/Walk.antt =====
-- The loops of server/list.c over its linked lists: they reach the node that is looked for, read
-- only nodes of the list, and need no more rounds than addresses have been given out.
use ssdd_final.Base.{
  ℕ, zero, suc, ◌≡◌, ◌<◌, Bool, true, false, List, [], ◌∷◌, length, arith, ◌==◌, Bool-cases, inl,
  inr,
}
use ssdd_final.CString.{Bytes, strcmp_eq}
use ssdd_final.Registry.Defs.{Node, ℤ}
use ssdd_final.Registry.History.{Call}
use ssdd_final.Heap.{Ptr, Mem, Code, walk}
use ssdd_final.Heap.Files.{walk_files}
use ssdd_final.Heap.Chain.{prejoin, first, Below-Suffix}
use ssdd_final.Heap.Layout.{PlacedFile, Placed, file_kind, node_kind, Layout}
use ssdd_final.Heap.Layout.Frame.{Layout-node, Layout-file, Apart-above}
use ssdd_final.Heap.Rules.{Inside, Inside-act, node_run, file_run}

module _ {c : Call} {seen was : Bool} {us : List Node} (m : Mem) (name : Bytes)
    (found : Ptr → Ptr → Code ℤ) (missing : Code ℤ) where
  module _ (ps : List Placed) (layout : Layout m ps) (P : List Placed → List Placed → Type 0)
      (step : (before next : List Placed) (p : Placed)
        → P before (p ∷ next)
        → strcmp_eq p.username name ≡ false
        → P (p ∷ before) next)
      (hit : (before next : List Placed) (p : Placed)
        → ps ≡ prejoin before (p ∷ next)
        → P before (p ∷ next)
        → strcmp_eq p.username name ≡ true
        → Inside c seen was us m (found (first node_kind before) p.at))
      (miss : (before : List Placed)
        → ps ≡ prejoin before []
        → P before []
        → Inside c seen was us m missing) where
    pub Inside-walk :
        (n : ℕ) (before next : List Placed)
        → length next < n
        → ps ≡ prejoin before next
        → P before next
        → Inside c seen was us m
            (walk n name found missing (first node_kind before) (first node_kind next))
    unfolding walk
    Inside-walk zero before next h e p = absurd (omega (arith, h))
    Inside-walk (suc n) before [] h e p = miss before e p
    Inside-walk (suc n) before (x ∷ next) h e p =
        let l : Layout m (prejoin before (x ∷ next)) = rw (← e) layout in
        let here = node_run m x.at (Layout-node m before next x l) in
        let above = (Below-Suffix node_kind m.fresh before (x ∷ next) l.below).below.0 in
        let off : (x.at == 0) ≡ false = ground (arith, above) in
        rw off (
          Inside-act _ m here (elim (Bool-cases (strcmp_eq x.username name)) [
            | inl same ↦ rw same (hit before next x e p same)
            | inr other ↦ rw other (
                Inside-act _ m here (
                  Inside-walk n (x ∷ before) next (omega (arith, h)) e
                    (step before next x p other)))
          ]))

  module _ (before next : List Placed) (p : Placed) (layout : Layout m (prejoin before (p ∷ next)))
      (P : List PlacedFile → List PlacedFile → Type 0)
      (step : (passed rest : List PlacedFile) (f : PlacedFile)
        → P passed (f ∷ rest)
        → strcmp_eq f.file.filename name ≡ false
        → P (f ∷ passed) rest)
      (hit : (passed rest : List PlacedFile) (f : PlacedFile)
        → p.files ≡ prejoin passed (f ∷ rest)
        → P passed (f ∷ rest)
        → strcmp_eq f.file.filename name ≡ true
        → Inside c seen was us m (found (first file_kind passed) f.at))
      (miss : (passed : List PlacedFile)
        → p.files ≡ prejoin passed []
        → P passed []
        → Inside c seen was us m missing) where
    pub Inside-walk_files :
        (n : ℕ) (passed rest : List PlacedFile)
        → length rest < n
        → p.files ≡ prejoin passed rest
        → P passed rest
        → Inside c seen was us m
            (walk_files n name found missing (first file_kind passed) (first file_kind rest))
    unfolding walk_files
    Inside-walk_files zero passed rest h e q = absurd (omega (arith, h))
    Inside-walk_files (suc n) passed [] h e q = miss passed e q
    Inside-walk_files (suc n) passed (f ∷ rest) h e q =
        let here = file_run m f.at (Layout-file m before next p passed rest f layout e) in
        let mine = (Apart-above m.fresh before (p ∷ next) layout.apart).1.0 in
        let above = (Below-Suffix file_kind m.fresh passed (f ∷ rest) (rw e at mine)).below.0 in
        let off : (f.at == 0) ≡ false = ground (arith, above) in
        rw off (
          Inside-act _ m here (elim (Bool-cases (strcmp_eq f.file.filename name)) [
            | inl same ↦ rw same (hit passed rest f e q same)
            | inr other ↦ rw other (
                Inside-act _ m here (
                  Inside-walk_files n (f ∷ passed) rest (omega (arith, h)) e
                    (step passed rest f q other)))
          ]))
