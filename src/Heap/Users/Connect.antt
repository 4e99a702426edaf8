-- ===== src/Heap/Users/Connect.antt =====
-- `connect_user` and `disconnect_user` of server/list.c on the heap.
use ssdd_final.Base.{
  ℕ, ◌≡◌, refl, ◌∙◌, Bool, false, Option, none, some, List, [], ◌∷◌, arith, if◌then◌else◌, ◌==◌,
  update, update-same, Bool-cases, inl, inr,
}
use ssdd_final.CString.{Bytes, strncpy, is_set}
use ssdd_final.Registry.Defs
use ssdd_final.Registry.Defs.{Node, ℤ, pos, done}
use ssdd_final.Registry.Users
use ssdd_final.Registry.Invariant.{ready}
use ssdd_final.Registry.History.{Call, perform}
use ssdd_final.Heap.{Mem, write_node, finish}
use ssdd_final.Threads.{access, ◌>>◌}
use ssdd_final.Heap.Users.{connect_found, connect_user, disconnect_found, disconnect_user}
use ssdd_final.Heap.Chain.{prejoin, first}
use ssdd_final.Heap.Layout.{Placed, node_kind, erase, erase_node, erase-prejoin}
use ssdd_final.Heap.Layout.Frame.{Layout-node}
use ssdd_final.Heap.Layout.Change.{Layout-write}
use ssdd_final.Heap.Rules.{Outside, Inside, Inside-act, Inside-finish, node_run, write_node_run}
use ssdd_final.Heap.Found.{Reached, Reached-finish, Outside-walk}

-- two writes at one address
update_twice :
    {A : Type 0} (f : ℕ → A) (i : ℕ) (x y : A) (a : ℕ)
    → update (update f i x) i y a ≡ (if a == i then y else f a)
update_twice f i x y a = ground arith

module _ {c : Call} {seen was : Bool} {us : List Node} (m : Mem) (before next : List Placed)
    (p : Placed) (r : Reached us m before (p ∷ next)) where
  -- the address and the port are written, then `unlock; return 0;`
  Inside-write_both :
      (ip port : Bytes)
      → perform c (ready us)
        ≡ done (pos 0) (
            ready (
              Defs.rejoin
                (erase before)
                (record (erase_node p) { ip = ip; port = port } ∷ erase next)))
      → Inside c seen was us m (do
        access (write_node p.at (λ c. record c { ip = ip }))
        access (write_node p.at (λ c. record c { port = port }))
        finish (pos 0))
  Inside-write_both ip port e =
      let x = node_kind.cell p (first node_kind next) in
      let q : Placed = record p { ip = ip; port = port } in
      Inside-act tt _ (write_node_run m p.at (Layout-node m before next p r.layout) _) (
        Inside-act tt _
          (write_node_run (record m { nodes = update m.nodes p.at (some (record x { ip = ip })) })
            p.at (update-same m.nodes p.at _) _)
          (Inside-finish (pos 0) (prejoin before (q ∷ next))
            (Layout-write m before next p r.layout q _ refl refl (update_twice m.nodes p.at _ _))
            r.inited (rw (erase-prejoin before (q ∷ next)) e)))

pub Outside-disconnect_user :
    (name : Bytes) → Outside (Call.disconnect name) false (disconnect_user name)
unfolding disconnect_user perform Users.disconnect_user disconnect_found
Outside-disconnect_user name =
    Outside-walk (Call.disconnect name) name Users.disconnect_found (λ us. refl) _
      (λ seen was us m before next p r e.
        Inside-act _ m (node_run m p.at (Layout-node m before next p r.layout))
          (elim (Bool-cases (is_set p.ip)) [
            | inl on ↦ rw on (Inside-write_both m before next p r [] [] (e ∙ rw on))
            | inr off ↦ rw off (Reached-finish r (pos 2) (e ∙ rw off))
          ]))

pub Outside-connect_user :
    (peer : Option Bytes) (port name : Bytes)
    → Outside (Call.connect peer port name) false (connect_user peer port name)
unfolding connect_user perform Users.connect_user connect_found
Outside-connect_user none port name =
    Outside-walk (Call.connect none port name) name (Users.connect_found none port) (λ us. refl) _
      (λ seen was us m before next p r e.
        Inside-act _ m (node_run m p.at (Layout-node m before next p r.layout))
          (elim (Bool-cases (is_set p.ip)) [
            | inl on ↦ rw on (Reached-finish r (pos 2) (e ∙ rw on))
            | inr off ↦ rw off (Reached-finish r (pos 3) (e ∙ rw off))
          ]))
Outside-connect_user (some addr) port name =
    Outside-walk (Call.connect (some addr) port name) name (Users.connect_found (some addr) port)
      (λ us. refl) _
      (λ seen was us m before next p r e.
        Inside-act _ m (node_run m p.at (Layout-node m before next p r.layout))
          (elim (Bool-cases (is_set p.ip)) [
            | inl on ↦ rw on (Reached-finish r (pos 2) (e ∙ rw on))
            | inr off ↦
                rw off
                  (Inside-write_both m before next p r (strncpy addr) (strncpy port) (e ∙ rw off))
          ]))
