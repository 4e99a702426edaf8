-- ===== src/Heap/Lists/Reads.antt =====
-- The queries of server/list.c on the heap write nothing to it, and answer as they do on the list.
use ssdd_final.Base.{◌≡◌, false, some, List, ◌∷◌, arith, ◌==◌}
use ssdd_final.Threads
use ssdd_final.Threads.{ret, unlock, act}
use ssdd_final.Heap.{NodeCell, Access, Mem, Code, node}
use ssdd_final.Heap.Chain.{prejoin, first, Below-Suffix}
use ssdd_final.Heap.Layout.{Placed, node_kind, Layout}
use ssdd_final.Heap.Layout.Frame.{Layout-node}
use ssdd_final.Heap.Rules.{node_run}

-- The program ends with this value, and every access on the way leaves the memory as it was.
pub data Reads (m : Mem) {A : Type 0} : Code A → A → Type 1 where
  returns : (a : A) → Reads m (ret a) a
  reads :
      {X : Type 0} {f : Access X} {k : X → Code A} {a : A} (x : X)
      → f m ≡ some (x, m)
      → Reads m (k x) a
      → Reads m (act f k) a

-- So it is up to `unlock; return a;`.
pub data Answers (m : Mem) {A : Type 0} : Code A → A → Type 1 where
  answers : (a : A) → Answers m (unlock (ret a)) a
  looks :
      {X : Type 0} {f : Access X} {k : X → Code A} {a : A} (x : X)
      → f m ≡ some (x, m)
      → Answers m (k x) a
      → Answers m (act f k) a

module _ {m : Mem} {A B : Type 0} where
  pub Reads-then :
      {p : Code A} (k : A → Code B) {a : A} {b : B}
      → Reads m p a
      → Reads m (k a) b
      → Reads m (Threads.◌>>=◌ p k) b
  Reads-then k (returns a) h = h
  Reads-then k (reads x e r) h = reads x e (Reads-then k r h)

  pub Answers-then :
      {p : Code A} (k : A → Code B) {a : A} {b : B}
      → Reads m p a
      → Answers m (k a) b
      → Answers m (Threads.◌>>=◌ p k) b
  Answers-then k (returns a) h = h
  Answers-then k (reads x e r) h = looks x e (Answers-then k r h)

-- where a walk stands
module _ (m : Mem) (before next : List Placed) (p : Placed)
    (l : Layout m (prejoin before (p ∷ next))) where
  pub is_node : (p.at == 0) ≡ false
  is_node = ground (arith, (Below-Suffix node_kind m.fresh before (p ∷ next) l.below).below.0)

  pub at_node : node p.at m ≡ some (node_kind.cell p (first node_kind next), m)
  at_node = node_run m p.at (Layout-node m before next p l)

  pub Reads-node :
      {A : Type 0} (k : NodeCell → Code A) (a : A)
      → Reads m (k (node_kind.cell p (first node_kind next))) a
      → Reads m (act (node p.at) k) a
  Reads-node k a h = reads _ at_node h

  pub Answers-node :
      {A : Type 0} (k : NodeCell → Code A) (a : A)
      → Answers m (k (node_kind.cell p (first node_kind next))) a
      → Answers m (act (node p.at) k) a
  Answers-node k a h = looks _ at_node h
