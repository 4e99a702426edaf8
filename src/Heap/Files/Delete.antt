-- ===== src/Heap/Files/Delete.antt =====
-- `unregister_file_from_user` of server/list.c on the heap.
use ssdd_final.Base.{
  ◌≡◌, refl, sym, ◌∙◌, ap, Bool, false, Option, none, some, List, [], ◌∷◌, arith, if◌then◌else◌,
  ◌==◌, update-other, Bool-cases, inl, inr,
}
use ssdd_final.CString.{Bytes, is_set}
use ssdd_final.Registry.Defs
use ssdd_final.Registry.Defs.{FileNode, Node, ℤ, pos, done}
use ssdd_final.Registry.Files
use ssdd_final.Registry.Refines.{entered}
use ssdd_final.Registry.Invariant.{ready}
use ssdd_final.Registry.History.{Call, perform}
use ssdd_final.Heap.{Ptr, FileCell, Mem}
use ssdd_final.Heap.Files.{remove_file, unregister_file_from_user}
use ssdd_final.Heap.Chain.{
  prejoin, first, Below, Below-mono, Below-frame, Below-Suffix, chain_at-node, length-Below,
}
use ssdd_final.Heap.Chain.Remove.{cut, relink, chain_at-cut, chain_at-relink, first-prejoin}
use ssdd_final.Heap.Layout.{
  PlacedFile, Placed, file_kind, node_kind, file_at, erase, erase_node, erase_files, erase-prejoin,
}
use ssdd_final.Heap.Layout.Frame.{Layout-node, Layout-file, Apart-above}
use ssdd_final.Heap.Layout.Change.{write_nodes, Layout-files}
use ssdd_final.Heap.Rules.{
  Outside, Inside, Inside-act, Inside-finish, node_run, write_node_run, file_run, write_file_run,
  free_file_run,
}
use ssdd_final.Heap.Walk.{Inside-walk_files}
use ssdd_final.Heap.Found.{Reached, Reached-finish, Outside-walk}

erase_files-prejoin :
    (passed fs : List PlacedFile)
    → erase_files (prejoin passed fs) ≡ Files.rejoin_files (erase_files passed) (erase_files fs)
unfolding Files.unregister_file_from_user
erase_files-prejoin [] fs = refl
erase_files-prejoin (f ∷ passed) fs = erase_files-prejoin passed (f ∷ fs)

-- an address that is taken is not one that is free
differ :
    (h : Ptr → Option FileCell) (a b : Ptr) (x : FileCell)
    → h a ≡ none
    → h b ≡ some x
    → (a == b) ≡ false
differ h a b x e e' = elim (Bool-cases (a == b)) [
  | inl on ↦ let same : a ≡ b = ground (arith, on) in absurd (taken (sym e ∙ ap h same ∙ e'))
  | inr off ↦ off
]
  where
    taken : ◌≡◌ {A = Option FileCell} none (some x) → ⊥
    taken h = cc

-- The node of a user stays as it is while the pointer to its files does.
same_node :
    (m : Mem) (next : List Placed) (p : Placed) (fs : List PlacedFile)
    → m.nodes p.at ≡ some (node_kind.cell p (first node_kind next))
    → first file_kind p.files ≡ first file_kind fs
    → (a : Ptr)
    → m.nodes a ≡ (
        if a == p.at
        then some (node_kind.cell (record p { files = fs }) (first node_kind next))
        else m.nodes a)
same_node m next p fs here heads a = elim (Bool-cases (a == p.at)) [
  | inl on ↦
      let same : a ≡ p.at = ground (arith, on) in
      rw on (
        ap m.nodes same
        ∙ here
        ∙ ap
            (λ x. some (record {
              username = p.username;
              ip = p.ip;
              port = p.port;
              list_files = x;
              next = first node_kind next;
            }))
            heads)
  | inr off ↦ rw off
]

module _ {c : Call} {seen was : Bool} {us : List Node} (m : Mem) (before next : List Placed)
    (p : Placed) (r : Reached us m before (p ∷ next)) where
  Inside-remove_file :
      (passed rest : List PlacedFile) (f : PlacedFile)
      → p.files ≡ prejoin passed (f ∷ rest)
      → perform c (ready us)
        ≡ done (pos 0) (
            ready (
              Defs.rejoin (erase before) (
                record (erase_node p) {
                  list_files = Files.rejoin_files (erase_files passed) (erase_files rest);
                }
                ∷ erase next)))
      → Inside c seen was us m (remove_file p.at (first file_kind passed) f.at)
  unfolding remove_file Files.unregister_file_from_user
  Inside-remove_file [] rest f same e =
      let l = r.layout in
      let mine = (Apart-above m.fresh before (p ∷ next) l.apart).1.0 in
      let q : Placed = record p { files = rest } in
      let here = Layout-file m before next p [] rest f l same in
      let d : Below file_kind m.fresh (f ∷ rest) = rw same at mine in
      Inside-act _ m (file_run m f.at here) (
        Inside-act tt _ (write_node_run m p.at (Layout-node m before next p l) _) (
          Inside-act tt _ (free_file_run _ f.at here) (
            Inside-finish (pos 0) (prejoin before (q ∷ next))
              (Layout-files m before next p l (cut file_kind f) q m.fresh
                (λ a. rw same (chain_at-cut file_kind m.fresh f rest a d))
                (λ a low none_there v.
                  let other =
                    differ (file_at p.files) a f.at (file_kind.cell f (first file_kind rest))
                      none_there (rw same (chain_at-node file_kind m.fresh [] rest f d)) in
                  rw other)
                _ _ refl (omega arith) (write_nodes m before next p l q _ refl (λ a. refl))
                (λ a. refl) (Below-mono file_kind f.at m.fresh rest (omega (arith, d.1)) d.2))
              r.inited (rw (erase-prejoin before (q ∷ next)) e))))
  Inside-remove_file (g ∷ passed) rest f same e =
      let l = r.layout in
      let mine = (Apart-above m.fresh before (p ∷ next) l.apart).1.0 in
      let q : Placed = record p { files = prejoin passed (g ∷ rest) } in
      let here = Layout-file m before next p (g ∷ passed) rest f l same in
      let prev = Layout-file m before next p passed (f ∷ rest) g l same in
      let d : Below file_kind m.fresh (prejoin passed (g ∷ f ∷ rest)) = rw same at mine in
      let low = (Below-Suffix file_kind m.fresh passed (g ∷ f ∷ rest) d).below in
      let heads : first file_kind p.files ≡ first file_kind q.files =
        rw same (first-prejoin file_kind passed (g ∷ f ∷ rest) (g ∷ rest) refl) in
      let off : (g.at == 0) ≡ false = ground (arith, low.0) in
      Inside-act _ m (file_run m f.at here) (
        rw off (
          Inside-act tt _ (write_file_run m g.at prev _) (
            Inside-act tt _
              (free_file_run _ f.at
                (update-other m.files g.at _ f.at (λ e. omega (arith, low.2.1, e)) ∙ here))
              (Inside-finish (pos 0) (prejoin before (q ∷ next))
                (Layout-files m before next p l (relink file_kind g f rest) q m.fresh
                  (λ a. rw same (chain_at-relink file_kind m.fresh passed g f rest a d))
                  (λ a low none_there v.
                    let other =
                      differ (file_at p.files) a f.at (file_kind.cell f (first file_kind rest))
                        none_there
                        (rw same (chain_at-node file_kind m.fresh (g ∷ passed) rest f d)) in
                    let other' =
                      differ (file_at p.files) a g.at (file_kind.cell g f.at) none_there
                        (rw same (chain_at-node file_kind m.fresh passed (f ∷ rest) g d)) in
                    rw (other, other'))
                  _ _ refl (omega arith)
                  (write_nodes m before next p l q m.nodes refl
                    (same_node m next p q.files (Layout-node m before next p l) heads))
                  (λ a. refl)
                  (Below-frame file_kind m.fresh passed (g ∷ f ∷ rest) (g ∷ rest)
                    (λ k b.
                      (b.0, b.1, Below-mono file_kind f.at g.at rest (omega (arith, b.2.1)) b.2.2))
                    d))
                r.inited
                (rw (erase-prejoin before (q ∷ next), erase_files-prejoin passed (g ∷ rest)) e)))))

pub Outside-unregister_file_from_user :
    (name filename : Bytes)
    → Outside (Call.delete name filename) false (unregister_file_from_user name filename)
unfolding unregister_file_from_user perform Files.unregister_file_from_user
Outside-unregister_file_from_user name filename =
    Outside-walk (Call.delete name filename) name (Files.delete_found filename) (λ us. refl) _
      (λ seen was us m before next p r e.
        let here = node_run m p.at (Layout-node m before next p r.layout) in
        let mine = (Apart-above m.fresh before (p ∷ next) r.layout.apart).1.0 in
        Inside-act _ m here (elim (Bool-cases (is_set p.ip)) [
          | inr off ↦ rw off (Reached-finish r (pos 2) (e ∙ rw off))
          | inl on ↦ rw on (
              Inside-act _ m here (
                Inside-walk_files m filename _ _ before next p r.layout
                  (λ passed rest.
                    perform (Call.delete name filename) (ready us)
                    ≡ Files.delete_loop filename (erase before) (erase_node p) (erase next)
                        (erase_files passed) (erase_files rest) (entered us))
                  (λ passed rest f e' miss. e' ∙ rw miss)
                  (λ passed rest f same e' found.
                    Inside-remove_file m before next p r passed rest f same (e' ∙ rw found))
                  (λ passed same e'. Reached-finish r (pos 3) e') m.fresh [] p.files
                  (length-Below file_kind m.fresh p.files r.layout.room mine) refl (e ∙ rw on)))
        ]))
