-- ===== src/Heap/Users/Register.antt =====
-- `register_user` of server/list.c on the heap.
use ssdd_final.Base.{
  suc, ◌≡◌, refl, ◌∙◌, ap, Bool, true, false, Option, some, List, [], ◌∷◌, arith, if◌then◌else◌,
  ◌==◌, update, Bool-cases, inl, inr,
}
use ssdd_final.CString.{Bytes, strncpy}
use ssdd_final.Registry.Defs.{Node, pos, negsuc}
use ssdd_final.Registry.Users
use ssdd_final.Registry.Refines.{entered}
use ssdd_final.Registry.Invariant.{ready}
use ssdd_final.Registry.History.{Call, perform}
use ssdd_final.Heap.{Ptr, NodeCell, Mem, get_messages, set_messages, malloc_node}
use ssdd_final.Heap.Users.{add_user, register_user}
use ssdd_final.Heap.Chain.{prejoin, first, chain_at}
use ssdd_final.Heap.Layout.{Placed, node_kind, erase, Apart-mono, Layout, files_at}
use ssdd_final.Heap.Rules.{Outside, Inside, Inside-act, Inside-finish, Inside-rewrite_node}
use ssdd_final.Heap.Found.{Reached, Reached-finish, Outside-with_user}

-- a new user in front, at the next new address
Layout-add :
    (m : Mem) (ps : List Placed) (username : Bytes) (nodes : Ptr → Option NodeCell)
    → Layout m ps
    → ((a : Ptr)
        → nodes a ≡ (
            if a == m.fresh
            then some (record {
              username = username;
              ip = [];
              port = [];
              list_files = 0;
              next = first node_kind ps;
            })
            else m.nodes a))
    → Layout
        (record m { messages = m.fresh; nodes = nodes; fresh = suc m.fresh })
        (record { at = m.fresh; username = username; ip = []; port = []; files = [] } ∷ ps)
unfolding chain_at files_at
Layout-add m ps username nodes l h = record {
  head = refl;
  nodes = λ a.
      h a ∙ (elim (Bool-cases (a == m.fresh)) [ inl on ↦ rw on | inr off ↦ rw off (l.nodes a) ]);
  files = l.files;
  room = omega arith;
  below = (l.room, omega arith, l.below);
  apart = (tt, λ a. inl refl, Apart-mono m.fresh (suc m.fresh) ps (omega arith) l.apart);
}

Inside-add_user :
    {c : Call} {seen was : Bool} {us : List Node} (m : Mem) (before : List Placed) (room : Bool)
    (junk : NodeCell) (name : Bytes)
    → Reached us m before []
    → perform c (ready us) ≡ Users.register_loop room name [] (entered us)
    → Inside c seen was us m (add_user room junk name)
unfolding Users.register_user add_user malloc_node get_messages set_messages
Inside-add_user m before false junk name r e = Inside-act 0 m refl (Reached-finish r (negsuc 0) e)
Inside-add_user m before true junk name r e =
    let l = r.layout in
    let off : (m.fresh == 0) ≡ false = ground (arith, l.room) in
    let old = first node_kind (prejoin before []) in
    let m₁ : Mem = record m { fresh = suc m.fresh } in
    let cell : NodeCell = record {
      username = strncpy name;
      ip = [];
      port = [];
      list_files = 0;
      next = junk.next;
    } in
    let m₂ : Mem = record m₁ { nodes = update m.nodes m.fresh (some cell) } in
    Inside-act m.fresh _ refl (
      rw off (
        Inside-rewrite_node m₁ m.fresh m.nodes junk _ (
          Inside-rewrite_node m₁ m.fresh m.nodes _ _ (
            Inside-rewrite_node m₁ m.fresh m.nodes _ _ (
              Inside-rewrite_node m₁ m.fresh m.nodes _ _ (
                Inside-act old m₂ (ap (λ q. some (q, m₂)) l.head) (
                  Inside-rewrite_node m₁ m.fresh m.nodes cell _ (
                    Inside-act tt _ refl (
                      Inside-finish (pos 0) _
                        (Layout-add m (prejoin before []) (strncpy name) _ l (λ a. refl)) r.inited
                        (rw r.same e))))))))))

pub Outside-register_user :
    (room : Bool) (junk : NodeCell) (name : Bytes)
    → Outside (Call.register room name) false (register_user room junk name)
unfolding register_user perform Users.register_user
Outside-register_user room junk name =
    Outside-with_user (Call.register room name) name _ _
      (λ us before next.
        perform (Call.register room name) (ready us)
        ≡ Users.register_loop room name (erase next) (entered us))
      (λ us ps same. rw same) (λ us before next p e off. e ∙ rw off)
      (λ seen was us m before next p r e on. Reached-finish r (pos 1) (e ∙ rw on))
      (λ seen was us m before r e. Inside-add_user m before room junk name r e)
