-- ===== src/Heap/Users/Unregister.antt =====
-- `unregister_user` of server/list.c on the heap: the node and all files of the user are freed, each
-- once, and nothing else.
use ssdd_final.Base.{
  ◌≡◌, refl, ◌∙◌, Bool, false, Option, none, some, List, [], ◌∷◌, arith, ◌==◌, update, update-other,
}
use ssdd_final.CString.{Bytes}
use ssdd_final.Registry.Defs
use ssdd_final.Registry.Defs.{Node, ℤ, pos, done}
use ssdd_final.Registry.Users
use ssdd_final.Registry.Invariant.{ready}
use ssdd_final.Registry.History.{Call, perform}
use ssdd_final.Threads.{access, ◌>>◌, ◌>>=◌}
use ssdd_final.Registry.Refines.{entered}
use ssdd_final.Heap.{node, Ptr, NodeCell, Mem, free_node, finish, set_messages}
use ssdd_final.Heap.Users.{free_files, unlink, unregister_found, unregister_user}
use ssdd_final.Heap.Chain.{prejoin, first, length-Below, Below-Suffix}
use ssdd_final.Heap.Layout.{Placed, file_kind, node_kind, node_at, erase, erase_node, erase-prejoin}
use ssdd_final.Heap.Layout.Frame.{Layout-node, Layout-own, Apart-above}
use ssdd_final.Heap.Chain.Remove.{first-prejoin}
use ssdd_final.Heap.Layout.Remove.{remove_first, remove_later, Layout-remove}
use ssdd_final.Heap.Rules.{
  Outside, Inside, Inside-act, Inside-Runs, Inside-finish, node_run, write_node_run, free_node_run,
}
use ssdd_final.Heap.Free.{freed, freed-without, Runs-free_files}
use ssdd_final.Heap.Found.{Reached, Outside-walk}

module _ {c : Call} {seen was : Bool} {us : List Node} (m : Mem) (before next : List Placed)
    (p : Placed) (r : Reached us m before (p ∷ next)) where
  -- the user is out of the list; its files and its node are freed, then `unlock; return 0;`
  Inside-release :
      (messages : Ptr) (nodes : Ptr → Option NodeCell)
      → messages ≡ first node_kind (prejoin before next)
      → nodes p.at ≡ some (node_kind.cell p (first node_kind next))
      → ((a : Ptr) → update nodes p.at none a ≡ node_at (prejoin before next) a)
      → perform c (ready us) ≡ done (pos 0) (ready (Defs.rejoin (erase before) (erase next)))
      → Inside c seen was us
          (record m { messages = messages; nodes = nodes })
          (do
            c ← access (node p.at)
            free_files m.fresh c.list_files
            access (free_node p.at)
            finish (pos 0))
  Inside-release messages nodes h e ns done_list =
      let mine = (Apart-above m.fresh before (p ∷ next) r.layout.apart).1.0 in
      Inside-act _ _ (node_run (record m { messages = messages; nodes = nodes }) p.at e) (
        Inside-Runs
          (Runs-free_files (λ _. access (free_node p.at) >> finish (pos 0)) m.fresh m.fresh p.files
            (record m { messages = messages; nodes = nodes })
            (length-Below file_kind m.fresh p.files r.layout.room mine) mine
            (λ a x own. Layout-own m before next p a x r.layout own))
          (Inside-act tt _
            (free_node_run
              (record m { messages = messages; nodes = nodes; files = freed p.files m.files }) p.at
              e)
            (Inside-finish (pos 0) (prejoin before next)
              (Layout-remove m before next p r.layout messages _ _ h ns
                (λ a. freed-without m.fresh p.files m.files a mine))
              r.inited (rw (erase-prejoin before next) done_list))))

pub Outside-unregister_user :
    (name : Bytes) → Outside (Call.unregister name) false (unregister_user name)
unfolding unregister_user perform Users.unregister_user unregister_found unlink set_messages
Outside-unregister_user name =
    Outside-walk (Call.unregister name) name Users.unlink (λ us. refl) _ hit
  where
    hit :
        (seen was : Bool) (us : List Node) (m : Mem) (before next : List Placed) (p : Placed)
        → Reached us m before (p ∷ next)
        → perform (Call.unregister name) (ready us)
          ≡ Users.unlink (erase before) (erase_node p) (erase next) (entered us)
        → Inside
            (Call.unregister name)
            seen
            was
            us
            m
            (unregister_found m.fresh (first node_kind before) p.at)
    hit seen was us m [] next p r e =
        Inside-act _ m (node_run m p.at (Layout-node m [] next p r.layout)) (
          Inside-act tt _ refl (
            Inside-release m [] next p r (first node_kind next) m.nodes refl
              (Layout-node m [] next p r.layout) (remove_first m next p r.layout) e))
    hit seen was us m (q ∷ before) next p r e =
        let l = r.layout in
        let below = (Below-Suffix node_kind m.fresh before (q ∷ p ∷ next) l.below).below in
        let off : (q.at == 0) ≡ false = ground (arith, below.0) in
        Inside-act _ m (node_run m p.at (Layout-node m (q ∷ before) next p l)) (
          rw off (
            Inside-act tt _ (write_node_run m q.at (Layout-node m before (p ∷ next) q l) _) (
              Inside-release m (q ∷ before) next p r m.messages _
                (l.head ∙ first-prejoin node_kind before (q ∷ p ∷ next) (q ∷ next) refl)
                (update-other m.nodes q.at _ p.at (λ e. omega (arith, below.2.1, e))
                  ∙ Layout-node m (q ∷ before) next p l)
                (remove_later m next p q before l) e)))
