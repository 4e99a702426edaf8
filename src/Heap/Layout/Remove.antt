-- ===== src/Heap/Layout/Remove.antt =====
-- The heap of server/list.c behind the removal of a user with its files.
use ssdd_final.Base.{
  ◌≡◌, ◌⊎◌, inl, inr, refl, sym, ap, ◌∙◌, Option, none, some, List, ◌∷◌, arith, update,
  Option-cases,
}
use ssdd_final.Heap.{Ptr, NodeCell, FileCell, Mem}
use ssdd_final.Heap.Chain.{prejoin, All-mono, first, Below-mono, Below-frame}
use ssdd_final.Heap.Layout.{
  PlacedFile, Placed, node_kind, node_at, file_at, or_else, files_at, Layout,
}
use ssdd_final.Heap.Layout.Frame.{Apart-above, Apart-frame, files_at-frame}
use ssdd_final.Heap.Chain.Remove.{cut, relink, chain_at-cut, chain_at-relink}

abbrev pub keep_unless : Option FileCell → Option FileCell → Option FileCell
keep_unless none v = v
keep_unless (some c) v = none

-- the files of the heap less those of one user
abbrev pub without : List PlacedFile → Ptr → Option FileCell → Option FileCell
without fs a v = keep_unless (file_at fs a) v

module _ (m : Mem) (next : List Placed) (p : Placed) where
  -- `p` is the first user
  pub remove_first : Layout m (p ∷ next) → (a : Ptr) → update m.nodes p.at none a ≡ node_at next a
  remove_first l a =
      ap (cut node_kind p a) (l.nodes a) ∙ sym (chain_at-cut node_kind m.fresh p next a l.below)

  -- `q` stands in front of `p`
  pub remove_later :
      (q : Placed) (before : List Placed)
      → Layout m (prejoin before (q ∷ p ∷ next))
      → (a : Ptr)
      → update (update m.nodes q.at (some (node_kind.cell q (first node_kind next)))) p.at none a
        ≡ node_at (prejoin before (q ∷ next)) a
  remove_later q before l a =
      ap (relink node_kind q p next a) (l.nodes a)
      ∙ sym (chain_at-relink node_kind m.fresh before q p next a l.below)

module _ (m : Mem) (before next : List Placed) (p : Placed)
    (l : Layout m (prejoin before (p ∷ next))) where
  -- the memory without `p` and its files
  pub Layout-remove :
      (messages : Ptr) (nodes : Ptr → Option NodeCell) (files : Ptr → Option FileCell)
      → messages ≡ first node_kind (prejoin before next)
      → ((a : Ptr) → nodes a ≡ node_at (prejoin before next) a)
      → ((a : Ptr) → files a ≡ without p.files a (m.files a))
      → Layout
          (record m { messages = messages; nodes = nodes; files = files })
          (prejoin before next)
  unfolding files_at
  Layout-remove messages nodes files h ns fs =
      let (above, here) = Apart-above m.fresh before (p ∷ next) l.apart in
      record {
        head = h;
        nodes = ns;
        files = λ a.
            fs a
            ∙ ap (without p.files a) (l.files a)
            ∙ sym (
                files_at-frame (without p.files) before (p ∷ next) next
                  (λ a. dropped (file_at p.files a) (files_at next a) (here.1 a))
                  (All-mono before
                    (λ q k a c e. elim (Option-cases (file_at p.files a)) [
                      | inl e' ↦ rw (e', without)
                      | inr (c', e') ↦ elim (k.1 a) [
                        | inl x ↦ cc
                        | inr x ↦ absurd (taken (file_at p.files a) _ c' e' x)
                      ]
                    ])
                    above)
                  a);
        room = l.room;
        below =
            Below-frame node_kind m.fresh before (p ∷ next) next
              (λ k d. Below-mono node_kind p.at k next (omega (arith, d.1)) d.2) l.below;
        apart =
            Apart-frame m.fresh m.fresh before (p ∷ next) next (omega arith) (λ d. d.2)
              (λ a low e. behind (file_at p.files a) (files_at next a) e) l.apart;
      }
    where
      taken : (o x : Option FileCell) (c : FileCell) → o ≡ some c → or_else o x ≡ none → ⊥
      taken none x c e h = cc
      taken (some d) x c e h = cc

      behind : (o x : Option FileCell) → or_else o x ≡ none → x ≡ none
      behind none x h = h
      behind (some d) x h = cc

      dropped : (o x : Option FileCell) → (o ≡ none) ⊎ (x ≡ none) → x ≡ keep_unless o (or_else o x)
      dropped none x h = refl
      dropped (some c) x (inl e) = cc
      dropped (some c) x (inr e) = e
