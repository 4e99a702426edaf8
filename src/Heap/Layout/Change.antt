-- ===== src/Heap/Layout/Change.antt =====
-- The heap of server/list.c behind a write to a user, and behind the removal of one.
use ssdd_final.Base.{
  ℕ, ◌≡◌, ◌≤◌, ◌<◌, inl, inr, refl, sym, ap, ◌∙◌, Option, none, some, List, ◌∷◌, arith,
  if◌then◌else◌, ◌==◌, ltb-cases,
}
use ssdd_final.Heap.{Ptr, NodeCell, FileCell, Mem}
use ssdd_final.Heap.Chain.{
  prejoin, All-mono, first, chain_at, Below, Below-mono, chain_at-Below, chain_at-frame,
  Below-frame,
}
use ssdd_final.Heap.Chain.Remove.{first-prejoin, above-differ}
use ssdd_final.Heap.Layout.{
  Placed, file_kind, node_kind, node_at, file_at, or_else, files_at, Apart, Apart-mono,
  files_at-Apart, Layout,
}
use ssdd_final.Heap.Layout.Frame.{Apart-above, Apart-frame, files_at-frame}

or_else-right : (o : Option FileCell) → or_else o none ≡ o
or_else-right none = refl
or_else-right (some c) = refl

or_else-left : (o x : Option FileCell) → or_else o x ≡ none → o ≡ none
or_else-left none x e = refl
or_else-left (some c) x e = cc

module _ (m : Mem) (before next : List Placed) (p : Placed)
    (l : Layout m (prejoin before (p ∷ next))) where
  pub write_nodes :
      (q : Placed) (nodes : Ptr → Option NodeCell)
      → q.at ≡ p.at
      → ((a : Ptr)
          → nodes a
            ≡ (if a == p.at then some (node_kind.cell q (first node_kind next)) else m.nodes a))
      → (a : Ptr) → nodes a ≡ node_at (prejoin before (q ∷ next)) a
  unfolding chain_at
  write_nodes q nodes e h a =
      h a
      ∙ ap (λ v. if a == p.at then some (node_kind.cell q (first node_kind next)) else v)
          (l.nodes a)
      ∙ sym (
          chain_at-frame node_kind
            (λ a v. if a == p.at then some (node_kind.cell q (first node_kind next)) else v) before
            (p ∷ next) (q ∷ next) e (λ a. rw e (ground arith))
            (All-mono before (λ y off v. rw off)
              (above-differ node_kind m.fresh before next p l.below))
            a)

  -- the memory with other nodes, which hold `q` in place of `p`
  pub Layout-write :
      (q : Placed) (nodes : Ptr → Option NodeCell)
      → q.at ≡ p.at
      → q.files ≡ p.files
      → ((a : Ptr)
          → nodes a
            ≡ (if a == p.at then some (node_kind.cell q (first node_kind next)) else m.nodes a))
      → Layout (record m { nodes = nodes }) (prejoin before (q ∷ next))
  unfolding chain_at files_at
  Layout-write q nodes e f h = record {
    head = l.head ∙ first-prejoin node_kind before (p ∷ next) (q ∷ next) (sym e);
    nodes = write_nodes q nodes e h;
    files = λ a.
        l.files a
        ∙ sym (
            files_at-frame (λ a v. v) before (p ∷ next) (q ∷ next) (λ a. rw f)
              (All-mono before (λ y off a c e. refl)
                (above-differ node_kind m.fresh before next p l.below))
              a);
    room = l.room;
    below = Below-frame node_kind m.fresh before (p ∷ next) (q ∷ next) (λ k d. rw e d) l.below;
    apart =
        Apart-frame m.fresh m.fresh before (p ∷ next) (q ∷ next) (omega arith)
          (λ d. (rw f d.0, λ a. rw f (d.1 a), d.2)) (λ a low e. rw f e) l.apart;
  }

  module _ (t : Ptr → Option FileCell → Option FileCell) (q : Placed) (n : ℕ)
      (own : (a : Ptr) → file_at q.files a ≡ t a (file_at p.files a))
      (local : (a : Ptr)
        → a < m.fresh
        → file_at p.files a ≡ none
        → (v : Option FileCell) → t a v ≡ v) where
    still_none : (a : Ptr) → a < m.fresh → file_at p.files a ≡ none → file_at q.files a ≡ none
    still_none a low e = own a ∙ ap (t a) e ∙ local a low e none

    files_at-own :
        (a : Ptr) → Apart m.fresh (p ∷ next) → files_at (q ∷ next) a ≡ t a (files_at (p ∷ next) a)
    unfolding files_at
    files_at-own a d = elim (ltb-cases a m.fresh) [
      | inl low ↦ elim (d.1 a) [
        | inl e ↦ rw (still_none a low e, e) (sym (local a low e (files_at next a)))
        | inr e ↦ alone e
      ]
      | inr high ↦ alone (files_at-Apart m.fresh next a d.2 high)
    ]
      where
        alone : files_at next a ≡ none → files_at (q ∷ next) a ≡ t a (files_at (p ∷ next) a)
        alone e =
            rw (e, or_else-right (file_at q.files a), or_else-right (file_at p.files a)) (own a)

    -- The memory with another list of files for `p`, where what changes lies in the files of `p` or
    -- at the next new address.
    pub Layout-files :
        (nodes : Ptr → Option NodeCell) (files : Ptr → Option FileCell)
        → q.at ≡ p.at
        → m.fresh ≤ n
        → ((a : Ptr) → nodes a ≡ node_at (prejoin before (q ∷ next)) a)
        → ((a : Ptr) → files a ≡ t a (m.files a))
        → Below file_kind n q.files
        → Layout (record m { nodes = nodes; files = files; fresh = n }) (prejoin before (q ∷ next))
    unfolding files_at
    Layout-files nodes files e le ns fs below =
        let (above, here) = Apart-above m.fresh before (p ∷ next) l.apart in
        record {
          head = l.head ∙ first-prejoin node_kind before (p ∷ next) (q ∷ next) (sym e);
          nodes = ns;
          files = λ a.
              fs a
              ∙ ap (t a) (l.files a)
              ∙ sym (
                  files_at-frame t before (p ∷ next) (q ∷ next) (λ a. files_at-own a here)
                    (All-mono before
                      (λ y k a c taken. elim (ltb-cases a m.fresh) [
                        | inr high ↦
                            let gone = chain_at-Below file_kind m.fresh y.files a k.0 high in cc
                        | inl low ↦ elim (k.1 a) [
                          | inl gone ↦ cc
                          | inr gone ↦
                              local a low (or_else-left (file_at p.files a) _ gone) (some c)
                        ]
                      ])
                      above)
                    a);
          room = omega (arith, l.room);
          below =
              Below-mono node_kind m.fresh n (prejoin before (q ∷ next)) le (
                Below-frame node_kind m.fresh before (p ∷ next) (q ∷ next) (λ k d. rw e d) l.below);
          apart =
              Apart-frame m.fresh n before (p ∷ next) (q ∷ next) le
                (λ d. (
                  below,
                  λ a. elim (ltb-cases a m.fresh) [
                    | inl low ↦ elim (d.1 a) [
                      | inl gone ↦ inl (still_none a low gone)
                      | inr gone ↦ inr gone
                    ]
                    | inr high ↦ inr (files_at-Apart m.fresh next a d.2 high)
                  ],
                  Apart-mono m.fresh n next le d.2,
                ))
                (λ a low gone.
                  let left = or_else-left (file_at p.files a) (files_at next a) gone in
                  rw (still_none a low left) (rw left at gone))
                l.apart;
        }
