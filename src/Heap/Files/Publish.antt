-- ===== src/Heap/Files/Publish.antt =====
-- `register_file_from_user` of server/list.c on the heap.
use ssdd_final.Base.{
  suc, ◌≡◌, refl, ◌∙◌, Bool, true, false, some, List, [], ◌∷◌, arith, if◌then◌else◌, ◌==◌, update,
  Bool-cases, inl, inr,
}
use ssdd_final.CString.{Bytes, strncpy, is_set}
use ssdd_final.Registry.Defs.{Node, pos}
use ssdd_final.Registry.Files
use ssdd_final.Registry.Refines.{entered}
use ssdd_final.Registry.Invariant.{ready}
use ssdd_final.Registry.History.{Call, perform}
use ssdd_final.Heap.{FileCell, Mem, malloc_file}
use ssdd_final.Heap.Files.{add_file, register_file_from_user}
use ssdd_final.Heap.Chain.{prejoin, first, chain_at, length-Below}
use ssdd_final.Heap.Layout.{
  PlacedFile, Placed, file_kind, erase, erase_node, erase_files, erase-prejoin,
}
use ssdd_final.Heap.Layout.Frame.{Layout-node, Apart-above}
use ssdd_final.Heap.Layout.Change.{write_nodes, Layout-files}
use ssdd_final.Heap.Rules.{
  Outside, Inside, Inside-act, Inside-finish, Inside-rewrite_file, node_run, write_node_run,
}
use ssdd_final.Heap.Walk.{Inside-walk_files}
use ssdd_final.Heap.Found.{Reached, Reached-finish, Outside-walk}

module _ {c : Call} {seen was : Bool} {us : List Node} (m : Mem) (before next : List Placed)
    (p : Placed) (r : Reached us m before (p ∷ next)) where
  Inside-add_file :
      (room : Bool) (junk : FileCell) (filename description : Bytes)
      → perform c (ready us)
        ≡ Files.publish_loop room filename description
            (erase before)
            (erase_node p)
            (erase next)
            []
            (entered us)
      → Inside c seen was us m (add_file room junk filename description p.at)
  unfolding add_file Files.register_file_from_user malloc_file chain_at
  Inside-add_file false junk filename description e =
      Inside-act 0 m refl (Reached-finish r (pos 4) e)
  Inside-add_file true junk filename description e =
      let l = r.layout in
      let off : (m.fresh == 0) ≡ false = ground (arith, l.room) in
      let f : PlacedFile = record {
        at = m.fresh;
        file = record { filename = strncpy filename; description = strncpy description };
      } in
      let q : Placed = record p { files = f ∷ p.files } in
      let m₁ : Mem = record m { fresh = suc m.fresh } in
      let named : FileCell = record {
        filename = strncpy filename;
        description = strncpy description;
        next = junk.next;
      } in
      let m₂ : Mem = record m₁ { files = update m.files m.fresh (some named) } in
      let filled = file_kind.cell f (first file_kind p.files) in
      let m₃ : Mem = record m₁ { files = update m.files m.fresh (some filled) } in
      let here = Layout-node m before next p l in
      let mine = (Apart-above m.fresh before (p ∷ next) l.apart).1.0 in
      Inside-act m.fresh _ refl (
        rw off (
          Inside-rewrite_file m₁ m.fresh m.files junk _ (
            Inside-rewrite_file m₁ m.fresh m.files _ _ (
              Inside-act _ m₂ (node_run m₂ p.at here) (
                Inside-rewrite_file m₁ m.fresh m.files named _ (
                  Inside-act tt _ (write_node_run m₃ p.at here _) (
                    Inside-finish (pos 0) (prejoin before (q ∷ next))
                      (Layout-files m before next p l
                        (λ a v. if a == m.fresh then some filled else v) q (suc m.fresh) (λ a. refl)
                        (λ a low e v.
                          let other : (a == m.fresh) ≡ false = ground (arith, low) in rw other)
                        _ _ refl (omega arith) (write_nodes m before next p l q _ refl (λ a. refl))
                        (λ a. refl) (l.room, omega arith, mine))
                      r.inited (rw (erase-prejoin before (q ∷ next)) e))))))))

pub Outside-register_file_from_user :
    (room : Bool) (junk : FileCell) (name filename description : Bytes)
    → Outside
        (Call.publish room name filename description)
        false
        (register_file_from_user room junk name filename description)
unfolding register_file_from_user perform Files.register_file_from_user
Outside-register_file_from_user room junk name filename description =
    Outside-walk (Call.publish room name filename description) name
      (Files.publish_found room filename description) (λ us. refl) _
      (λ seen was us m before next p r e.
        let here = node_run m p.at (Layout-node m before next p r.layout) in
        let mine = (Apart-above m.fresh before (p ∷ next) r.layout.apart).1.0 in
        Inside-act _ m here (elim (Bool-cases (is_set p.ip)) [
          | inr off ↦ rw off (Reached-finish r (pos 2) (e ∙ rw off))
          | inl on ↦ rw on (
              Inside-act _ m here (
                Inside-walk_files m filename _ _ before next p r.layout
                  (λ passed rest.
                    perform (Call.publish room name filename description) (ready us)
                    ≡ Files.publish_loop room filename description (erase before) (erase_node p)
                        (erase next) (erase_files rest) (entered us))
                  (λ passed rest f e' miss. e' ∙ rw miss)
                  (λ passed rest f same e' found. Reached-finish r (pos 3) (e' ∙ rw found))
                  (λ passed same e'.
                    Inside-add_file m before next p r room junk filename description e')
                  m.fresh [] p.files (length-Below file_kind m.fresh p.files r.layout.room mine)
                  refl (e ∙ rw on)))
        ]))
