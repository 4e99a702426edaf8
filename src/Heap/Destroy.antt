-- ===== src/Heap/Destroy.antt =====
-- server/list.c: `destroy_list`, on the nodes at their addresses. Nothing in the server calls it.
use ssdd_final.Base.{
  ℕ, zero, suc, ◌≡◌, ◌≢◌, ◌<◌, refl, sym, ap, ◌∙◌, Bool, true, false, none, some, List, [], ◌∷◌,
  length, arith, if◌then◌else◌, ◌==◌, update, update-same, update-other, inl, inr, Bool-cases, ◌⊎◌,
}
use ssdd_final.Registry.Defs.{Node, ℤ, pos}
use ssdd_final.Threads.{
  ret, lock, unlock, act, access, locking, unlocking, ◌>>=◌, ◌>>◌, System, Step, locks, unlocks,
  acts, Reach, start, later,
}
use ssdd_final.Threads.Alone.{Runs, stop, go, Runs-then, Runs-bind, exec, exec-Runs}
use ssdd_final.Heap.{
  Ptr, Mem, Code, Access, get_inited, get_messages, set_messages, node, free_node, limit,
  out_of_fuel, init_list,
}
use ssdd_final.Heap.Users.{free_files}
use ssdd_final.Heap.Free.{freed, freed-without, Runs-free_files}
use ssdd_final.Heap.Chain.{first, chain_at, length-Below}
use ssdd_final.Heap.Layout.{Placed, file_kind, node_kind, files_at, Layout}
use ssdd_final.Heap.Layout.Frame.{Layout-node, Layout-own, Apart-above}
use ssdd_final.Heap.Layout.Remove.{remove_first, Layout-remove}
use ssdd_final.Heap.Rules.{Stands, node_run, free_node_run}

-- `inited_list = 0`
unfoldable pub clear_inited : Access (Unit {0})
clear_inited m = some (tt, record m { inited_list = false })

-- `while (current)`: the node and its files are freed
unfoldable pub destroy_loop : ℕ → Ptr → Code (Unit {0})
unfolding node limit free_files free_node out_of_fuel
destroy_loop zero current = out_of_fuel
destroy_loop (suc n) current = if current == 0 then ret tt else do
  next ← access (node current)
  files ← access (node current)
  k ← access limit
  free_files k files.list_files
  access (free_node current)
  destroy_loop n next.next

-- `messages = NULL; inited_list = 0; unlock; return 0;`
unfoldable pub clear : Code ℤ
unfolding set_messages clear_inited
clear = do access (set_messages 0); access clear_inited; unlocking; ret (pos 0)

-- `init_list` is called with the mutex held.
unfoldable pub destroy_list : Code ℤ
unfolding get_inited init_list get_messages limit destroy_loop clear
destroy_list = do
  locking
  inited ← access get_inited
  if inited then ret tt else init_list >> ret tt
  current ← access get_messages
  n ← access limit
  destroy_loop n current
  clear

Runs-destroy_loop :
    (n : ℕ) (ps : List Placed) (m : Mem)
    → length ps < n
    → Layout (record m { messages = first node_kind ps }) ps
    → (m' : Mem) × Runs (destroy_loop n (first node_kind ps)) m (ret tt) m'
      × Layout (record m' { messages = 0 }) []
unfolding destroy_loop limit
Runs-destroy_loop zero ps m h l = absurd (omega (arith, h))
Runs-destroy_loop (suc n) [] m h l = (m, stop _ _, l)
Runs-destroy_loop (suc n) (p ∷ next) m h l =
    let start : Mem = record m { messages = p.at } in
    let at_p = Layout-node start [] next p l in
    let here = node_run m p.at at_p in
    let off : (p.at == 0) ≡ false = ground (arith, l.below.0) in
    let mine = (Apart-above m.fresh [] (p ∷ next) l.apart).1.0 in
    let m₁ : Mem = record m { files = freed p.files m.files } in
    let m₂ : Mem = record m₁ { nodes = update m.nodes p.at none } in
    let (m', runs, empty) = Runs-destroy_loop n next m₂ (omega (arith, h)) (
      Layout-remove start [] next p l (first node_kind next) (update m.nodes p.at none)
        (freed p.files m.files) refl (remove_first start next p l)
        (λ a. freed-without m.fresh p.files m.files a mine)) in
    (
      m',
      rw off (
          go _ m here (
            go _ m here (
              go m.fresh m refl (
                Runs-then
                  (Runs-free_files _ m.fresh m.fresh p.files m
                    (length-Below file_kind m.fresh p.files l.room mine) mine
                    (λ a x own. Layout-own start [] next p a x l own))
                  (go tt m₂ (free_node_run m₁ p.at at_p) runs))))),
      empty,
    )

-- What `destroy_list` leaves: it returns 0 with the mutex free, the list is empty and marked as not
-- initialised, and no node and no file is left in the heap.
pub record Destroyed (m : Mem) : Type 0 where
  pub after : Mem
  pub runs : exec destroy_list false m ≡ some (pos 0, false, after)
  pub messages : after.messages ≡ 0
  pub inited : after.inited_list ≡ false
  pub nodes : (a : Ptr) → after.nodes a ≡ none
  pub files : (a : Ptr) → after.files a ≡ none

-- what follows the test of `inited_list`
destroy_rest : Code ℤ
unfolding get_messages limit destroy_loop clear
destroy_rest = do current ← access get_messages; n ← access limit; destroy_loop n current; clear

destroy_rest-exec :
    (m : Mem) (ps : List Placed)
    → Layout m ps
    → (m' : Mem) × (exec destroy_rest true m
        ≡ some (pos 0, false, record m' { messages = 0; inited_list = false }))
      × Layout (record m' { messages = 0 }) []
unfolding destroy_rest exec get_messages limit clear set_messages clear_inited
destroy_rest-exec m ps l =
    let (m', runs, empty) =
      Runs-destroy_loop m.fresh ps m (length-Below node_kind m.fresh ps l.room l.below) (record {
        head = refl;
        nodes = l.nodes;
        files = l.files;
        room = l.room;
        below = l.below;
        apart = l.apart;
      }) in
    (
      m',
      ap (λ q. exec (destroy_loop m.fresh q >> clear) true m) l.head
          ∙ exec-Runs true (Runs-bind (λ _. clear) runs),
      empty,
    )

past_test :
    (b : Bool) (k : Code ℤ) (m : Mem)
    → b ≡ true
    → exec ((if b then ret tt else init_list >> ret tt) >> k) true m ≡ exec k true m
past_test true k m e = refl
past_test false k m e = cc

-- Thread `i` comes to wait for the mutex that it holds itself, and then nothing can make a step.
pub record LocksItself (s : System Mem ℤ) (i : ℕ) : Type 1 where
  pub after : System Mem ℤ
  pub rest : Code ℤ
  pub reached : Reach s after
  pub holds : after.owner ≡ some i
  pub waits : after.threads i ≡ lock rest
  pub stuck : (u : System Mem ℤ) → ¬ Step after u

-- A thread that waits for a mutex that is taken stays there, where all others have returned.
no_step :
    (s : System Mem ℤ) (i : ℕ) (rest : Code ℤ)
    → s.owner ≡ some i
    → s.threads i ≡ lock rest
    → ((j : ℕ) → j ≢ i → (a : ℤ) × (s.threads j ≡ ret a))
    → (u : System Mem ℤ) → ¬ Step s u
no_step s i rest o e returned u m = refuted m
  where
    other : (j : ℕ) (p : Code ℤ) → s.threads j ≡ p → (j ≡ i) ⊎ ((a : ℤ) × (p ≡ ret a))
    other j p h = elim (Bool-cases (j == i)) [
      | inl same ↦ inl (ground arith)
      | inr differs ↦ let (a, r) = returned j (λ x. ground arith) in inr (a, sym h ∙ r)
    ]

    refuted : {u : System Mem ℤ} → Step s u → ⊥
    refuted (locks j p h free) = cc
    refuted (unlocks j p h) = elim (other j (unlock p) h) [
      | inl same ↦ let same_at : s.threads j ≡ lock rest = rw same e in cc
      | inr (a, r) ↦ cc
    ]
    refuted (acts j f k r m h x) = elim (other j (act f k) h) [
      | inl same ↦ let same_at : s.threads j ≡ lock rest = rw same e in cc
      | inr (a, r') ↦ cc
    ]

-- A thread calls `destroy_list` while all others have returned, on a memory that holds a list of
-- users, with the mutex free. Where the list has been initialised, it returns and frees every user
-- with every file, each once. Where it has not, it comes to wait, in `init_list`, for the mutex that
-- it holds itself, and then no thread can make a step.
pub destroy_list-Destroyed :
    (s : System Mem ℤ) (i : ℕ) (us : List Node)
    → Stands s.mem us
    → s.owner ≡ none
    → s.threads i ≡ destroy_list
    → ((j : ℕ) → j ≢ i → (a : ℤ) × (s.threads j ≡ ret a))
    → (s.mem.inited_list ≡ true → Destroyed s.mem) × (s.mem.inited_list ≡ false → LocksItself s i)
unfolding destroy_list exec get_inited init_list destroy_rest files_at chain_at
destroy_list-Destroyed s i us v o e returned = (
  λ on.
      let m = s.mem in
      let (m', runs, empty) = destroy_rest-exec m v.placed v.layout in
      record {
        after = record m' { messages = 0; inited_list = false };
        runs = past_test m.inited_list destroy_rest m on ∙ runs;
        messages = refl;
        inited = refl;
        nodes = empty.nodes;
        files = empty.files;
      },
  λ off.
      let behind : Bool → Code ℤ =
        λ inited. (if inited then ret tt else init_list >> ret tt) >> destroy_rest in
      let inside : Code ℤ = act get_inited behind in
      let threads₁ = update s.threads i inside in
      let threads₂ = update threads₁ i (behind false) in
      let after : System Mem ℤ = record s { owner = some i; threads = threads₂ } in
      let here : threads₂ i ≡ behind false = update-same threads₁ i (behind false) in
      record {
        after = after;
        rest = _;
        reached = later (later start (locks i inside e o)) (
            acts i get_inited behind false s.mem (update-same s.threads i inside)
              (ap (λ b. some (b, s.mem)) off));
        holds = refl;
        waits = here;
        stuck = no_step after i _ refl here (λ j n.
            let (a, r) = returned j n in
            (
              a,
              update-other threads₁ i (behind false) j n ∙ update-other s.threads i inside j n ∙ r,
            ));
      },
)
