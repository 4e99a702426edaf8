-- ===== src/Heap/Found.antt =====
-- The beginning that the operations of server/list.c share, up to the block of the `if` in the loop
-- over the users, and how it goes along with the same loop over the list.
use ssdd_final.Base.{ℕ, ◌≡◌, refl, ◌∙◌, ap, Bool, true, false, some, List, [], ◌∷◌}
use ssdd_final.CString.{Bytes, strcmp_eq}
use ssdd_final.Registry.Defs
use ssdd_final.Registry.Defs.{Node, ℤ, pos, done, Op, rejoin, unlock}
use ssdd_final.Registry.Refines.{entered}
use ssdd_final.Registry.Invariant.{ready}
use ssdd_final.Registry.History.{Call, perform}
use ssdd_final.Heap.{Ptr, Mem, Code, limit, get_messages, finish, with_user}
use ssdd_final.Heap.Chain.{prejoin, first, length-Below}
use ssdd_final.Heap.Layout.{Placed, node_kind, erase, erase_node, Layout}
use ssdd_final.Heap.Rules.{Outside, Inside, Inside-act, Inside-finish, Outside-enter}
use ssdd_final.Heap.Walk.{Inside-walk}

-- Where the loop stands in memory.
pub record Reached (us : List Node) (m : Mem) (before next : List Placed) : Type 0 where
  pub same : erase (prejoin before next) ≡ us
  pub layout : Layout m (prejoin before next)
  pub inited : m.inited_list ≡ true

-- `unlock; return a;` with nothing written
pub Reached-finish :
    {c : Call} {seen was : Bool} {us : List Node} {m : Mem} {before next : List Placed}
    → Reached us m before next
    → (a : ℤ) → perform c (ready us) ≡ done a (ready us)
    → Inside c seen was us m (finish a)
Reached-finish {before = before} {next = next} r a e =
    Inside-finish a (prejoin before next) r.layout r.inited (rw r.same e)

module _ (c : Call) (name : Bytes) (found : ℕ → Ptr → Ptr → Code ℤ) (missing : ℕ → Code ℤ)
    (P : List Node → List Placed → List Placed → Type 0)
    (begin : (us : List Node) (ps : List Placed) → erase ps ≡ us → P us [] ps)
    (step : (us : List Node) (before next : List Placed) (p : Placed)
      → P us before (p ∷ next)
      → strcmp_eq p.username name ≡ false
      → P us (p ∷ before) next)
    (hit : (seen was : Bool) (us : List Node) (m : Mem) (before next : List Placed) (p : Placed)
      → Reached us m before (p ∷ next)
      → P us before (p ∷ next)
      → strcmp_eq p.username name ≡ true
      → Inside c seen was us m (found m.fresh (first node_kind before) p.at))
    (miss : (seen was : Bool) (us : List Node) (m : Mem) (before : List Placed)
      → Reached us m before []
      → P us before []
      → Inside c seen was us m (missing m.fresh)) where
  pub Outside-with_user : Outside c false (with_user name found missing)
  unfolding with_user limit get_messages
  Outside-with_user = Outside-enter c _ λ seen was us m ps same l i. Inside-act m.fresh m refl (
      Inside-act (first node_kind ps) m (ap (λ q. some (q, m)) l.head) (
        Inside-walk m name (found m.fresh) (missing m.fresh) ps l (P us) (step us)
          (λ before next p e q h.
            hit seen was us m before next p
              (record { same = rw (← e) same; layout = rw (← e) l; inited = i }) q h)
          (λ before e q.
            miss seen was us m before
              (record { same = rw (← e) same; layout = rw (← e) l; inited = i }) q)
          m.fresh [] ps (length-Below node_kind m.fresh ps l.room l.below) refl (begin us ps same)))

-- The call is at this point of the loop over the list.
abbrev pub Along :
    Call
    → Bytes
    → (List Node → Node → List Node → Op ℤ)
    → List Node
    → List Placed
    → List Placed
    → Type 0
Along c name f us before next =
    perform c (ready us) ≡ Defs.with_user name f (erase before) (erase next) (entered us)

module _ (c : Call) (name : Bytes) (f : List Node → Node → List Node → Op ℤ)
    (begin : (us : List Node) → perform c (ready us) ≡ Defs.with_user name f [] us (entered us))
    (found : ℕ → Ptr → Ptr → Code ℤ)
    (hit : (seen was : Bool) (us : List Node) (m : Mem) (before next : List Placed) (p : Placed)
      → Reached us m before (p ∷ next)
      → perform c (ready us) ≡ f (erase before) (erase_node p) (erase next) (entered us)
      → Inside c seen was us m (found m.fresh (first node_kind before) p.at)) where
  pub Outside-walk : Outside c false (with_user name found (λ n. finish (pos 1)))
  unfolding Defs.with_user
  Outside-walk =
      Outside-with_user c name found (λ n. finish (pos 1)) (Along c name f)
        (λ us ps same. rw same (begin us)) (λ us before next p e off. e ∙ rw off)
        (λ seen was us m before next p r e on. hit seen was us m before next p r (e ∙ rw on))
        (λ seen was us m before r e. Reached-finish r (pos 1) e)
