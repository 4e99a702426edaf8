-- ===== src/Heap/Free.antt =====
-- server/list.c: the loop that frees the files of a user, on the heap.
use ssdd_final.Base.{
  ℕ, zero, suc, ◌≡◌, ◌<◌, refl, ◌∙◌, true, false, Option, none, some, List, [], ◌∷◌, length, arith,
  ◌==◌, update, Bool-cases, inl, inr,
}
use ssdd_final.Threads.Alone.{Runs, stop, go}
use ssdd_final.Threads.{◌>>=◌}
use ssdd_final.Heap.{Ptr, FileCell, Mem, Code}
use ssdd_final.Heap.Users.{free_files}
use ssdd_final.Heap.Chain.{first, chain_at, Below, chain_at-Below}
use ssdd_final.Heap.Layout.{PlacedFile, file_kind, file_at}
use ssdd_final.Heap.Layout.Remove.{without, keep_unless}
use ssdd_final.Heap.Rules.{file_run, free_file_run}

-- the heap behind `free` of each file
abbrev pub freed : List PlacedFile → (Ptr → Option FileCell) → Ptr → Option FileCell
freed [] h = h
freed (f ∷ fs) h = freed fs (update h f.at none)

keep_unless-none : (o : Option FileCell) → keep_unless o none ≡ none
keep_unless-none none = refl
keep_unless-none (some c) = refl

pub freed-without :
    (k : ℕ) (fs : List PlacedFile) (h : Ptr → Option FileCell) (a : Ptr)
    → Below file_kind k fs
    → freed fs h a ≡ without fs a (h a)
unfolding chain_at
freed-without k [] h a d = refl
freed-without k (f ∷ fs) h a d =
    freed-without f.at fs (update h f.at none) a d.2 ∙ (elim (Bool-cases (a == f.at)) [
      | inl on ↦ rw (on, without) (keep_unless-none (file_at fs a))
      | inr off ↦ rw (off, without)
    ])

-- Each file of the list is freed, and nothing else.
pub Runs-free_files :
    {A : Type 0} (k : Unit {0} → Code A) (b n : ℕ) (fs : List PlacedFile) (m : Mem)
    → length fs < n
    → Below file_kind b fs
    → ((a : Ptr) (x : FileCell) → file_at fs a ≡ some x → m.files a ≡ some x)
    → Runs
        (free_files n (first file_kind fs) >>= k)
        m
        (k tt)
        (record m { files = freed fs m.files })
unfolding free_files chain_at
Runs-free_files k b zero fs m h d own = absurd (omega (arith, h))
Runs-free_files k b (suc n) [] m h d own = stop _ _
Runs-free_files k b (suc n) (f ∷ fs) m h d own =
    let on : (f.at == f.at) ≡ true = ground arith in
    let off : (f.at == 0) ≡ false = ground (arith, d.0) in
    let here = own f.at (file_kind.cell f (first file_kind fs)) (rw on) in
    rw off (
      go _ m (file_run m f.at here) (
        go tt _ (free_file_run m f.at here) (
          Runs-free_files k f.at n fs (record m { files = update m.files f.at none })
            (omega (arith, h)) d.2
            (λ a x e. elim (Bool-cases (a == f.at)) [
              | inl same ↦
                  let gone = chain_at-Below file_kind f.at fs a d.2 (ground (arith, same)) in cc
              | inr other ↦ rw other (own a x (rw other e))
            ]))))
