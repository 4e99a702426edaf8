-- ===== src/Heap/Rules.antt =====
-- What the mutex of server/list.c protects, and a rule for each access behind it.
use ssdd_final.Base.{
  ◌≡◌, refl, Bool, true, false, Option, none, some, List, [], update, update-same, update-again,
  if◌then◌else◌,
}
use ssdd_final.Registry.Defs.{Node, ℤ, pos, done, Op}
use ssdd_final.Registry.Invariant.{ready}
use ssdd_final.Registry.History.{Call, perform}
use ssdd_final.Threads.{ret, lock, unlock, act, access, locking, unlocking, ◌>>◌}
use ssdd_final.Threads.Alone.{Runs, stop, go}
use ssdd_final.Threads.Discipline.{
  Resource, Knows, pending, returned, outside, inside, stays, commits, Checks,
}
use ssdd_final.Heap.{
  Access, Ptr, NodeCell, FileCell, Mem, Code, get_inited, set_messages, node, write_node, free_node,
  file, write_file, free_file, finish, set_inited, init_list, enter,
}
use ssdd_final.Heap.Layout.{Placed, erase, Layout}

-- While the mutex is free the memory holds a list of users, none before the initialisation.
pub record Stands (m : Mem) (us : List Node) : Type 0 where
  pub placed : List Placed
  pub same : erase placed ≡ us
  pub layout : Layout m placed
  pub clean : m.inited_list ≡ false → placed ≡ []

-- A call does to the list what it does in one piece.
abbrev pub resource : {A W : Type 0} → (W → Op A) → Resource Mem A W (List Node)
resource run = record {
  Inv = Stands;
  started = λ m. m.inited_list;
  Performs = λ w us a us'. run w (ready us) ≡ done a (ready us');
}

abbrev pub registry : Resource Mem ℤ Call (List Node)
registry = resource perform

-- a program outside of the critical sections of a call, and inside one
pub record Outside (c : Call) (seen : Bool) (p : Code ℤ) : Type 0 where
  pub checks : Checks registry (outside (pending c seen)) p

pub record Inside (c : Call) (seen was : Bool) (us : List Node) (m : Mem) (p : Code ℤ)
    : Type 0 where
  pub checks : Checks registry (inside (pending c seen) was us m) p

module _ {c : Call} {seen : Bool} where
  pub Outside-lock :
      {p : Code ℤ}
      → ((m : Mem) (us : List Node)
          → Stands m us
          → (seen ≡ true → m.inited_list ≡ true)
          → Inside c seen m.inited_list us m p)
      → Outside c seen (lock p)
  unfolding Checks
  Outside-lock h = record { checks = λ m us v knows. (h m us v (known seen knows)).checks }
    where
      known : (b : Bool) {b' : Bool} → Knows registry (pending c b) b' → b ≡ true → b' ≡ true
      known true k e = k
      known false k e = cc

  module _ {was : Bool} {us : List Node} {m : Mem} where
    pub Inside-act :
        {X : Type 0} {f : Access X} {k : X → Code ℤ} (x : X) (m' : Mem)
        → f m ≡ some (x, m')
        → Inside c seen was us m' (k x)
        → Inside c seen was us m (act f k)
    unfolding Checks
    Inside-act x m' e h = record { checks = rw e h.checks }

    -- the mutex is given back with the list as it was
    pub Inside-unlock :
        {p : Code ℤ} (seen' : Bool)
        → Stands m us
        → (was ≡ true → m.inited_list ≡ true)
        → (seen' ≡ true → m.inited_list ≡ true)
        → Outside c seen' p
        → Inside c seen was us m (unlock p)
    unfolding Checks
    Inside-unlock seen' v w i h = record {
      checks = (pending c seen', us, v, w, known seen' i, stays, h.checks);
    }
      where
        known : (b : Bool) {b' : Bool} → (b ≡ true → b' ≡ true) → Knows registry (pending c b) b'
        known true k = k refl
        known false k = tt

    -- `unlock; return a;`, where the memory stands for what the call makes of the list
    pub Inside-finish :
        (a : ℤ) (ps : List Placed)
        → Layout m ps
        → m.inited_list ≡ true
        → perform c (ready us) ≡ done a (ready (erase ps))
        → Inside c seen was us m (finish a)
    unfolding Checks finish
    Inside-finish a ps l i e = record {
      checks = (
        returned a,
        erase ps,
        record { placed = ps; same = refl; layout = l; clean = λ n. cc },
        λ w. i,
        tt,
        commits e,
        refl,
      );
    }

-- the accesses up to another point of the program
pub Inside-Runs :
    {c : Call} {seen was : Bool} {us : List Node} {p q : Code ℤ} {m n : Mem}
    → Runs p m q n
    → Inside c seen was us n q
    → Inside c seen was us m p
Inside-Runs (stop p m) h = h
Inside-Runs (go x m' e r) h = Inside-act x m' e (Inside-Runs r h)

module _ (m : Mem) (p : Ptr) where
  module _ {x : NodeCell} (e : m.nodes p ≡ some x) where
    pub node_run : node p m ≡ some (x, m)
    unfolding node
    node_run = rw (e, node)

    pub write_node_run :
        (g : NodeCell → NodeCell)
        → write_node p g m ≡ some (tt, record m { nodes = update m.nodes p (some (g x)) })
    unfolding write_node
    write_node_run g = rw (e, write_node)

    pub free_node_run : free_node p m ≡ some (tt, record m { nodes = update m.nodes p none })
    unfolding free_node
    free_node_run = rw (e, free_node)

  module _ {x : FileCell} (e : m.files p ≡ some x) where
    pub file_run : file p m ≡ some (x, m)
    unfolding file
    file_run = rw (e, file)

    pub write_file_run :
        (g : FileCell → FileCell)
        → write_file p g m ≡ some (tt, record m { files = update m.files p (some (g x)) })
    unfolding write_file
    write_file_run g = rw (e, write_file)

    pub free_file_run : free_file p m ≡ some (tt, record m { files = update m.files p none })
    unfolding free_file
    free_file_run = rw (e, free_file)

-- a further write to a node, and to a file, that has just been written
module _ {c : Call} {seen was : Bool} {us : List Node} (m : Mem) (p : Ptr) where
  pub Inside-rewrite_node :
      (nodes : Ptr → Option NodeCell) (x : NodeCell) (g : NodeCell → NodeCell)
      {k : Unit {0} → Code ℤ}
      → Inside c seen was us (record m { nodes = update nodes p (some (g x)) }) (k tt)
      → Inside c seen was us (record m { nodes = update nodes p (some x) }) (act (write_node p g) k)
  Inside-rewrite_node nodes x g h =
      Inside-act tt _
        (write_node_run (record m { nodes = update nodes p (some x) }) p
          (update-same nodes p (some x)) g)
        (rw (update-again nodes p (some x) (some (g x))) h)

  pub Inside-rewrite_file :
      (files : Ptr → Option FileCell) (x : FileCell) (g : FileCell → FileCell)
      {k : Unit {0} → Code ℤ}
      → Inside c seen was us (record m { files = update files p (some (g x)) }) (k tt)
      → Inside c seen was us (record m { files = update files p (some x) }) (act (write_file p g) k)
  Inside-rewrite_file files x g h =
      Inside-act tt _
        (write_file_run (record m { files = update files p (some x) }) p
          (update-same files p (some x)) g)
        (rw (update-again files p (some x) (some (g x))) h)

-- what a call has to show behind `enter`
abbrev pub Enters : Call → Code ℤ → Type 0
Enters c p =
    (seen was : Bool) (us : List Node) (m : Mem) (ps : List Placed)
    → erase ps ≡ us
    → Layout m ps
    → m.inited_list ≡ true
    → Inside c seen was us m p

module _ (c : Call) (k : Code ℤ) (h : Enters c k) where
  -- behind the unlock of `init_list`, which has seen the list initialised
  Outside-relock : Outside c true (lock k)
  Outside-relock =
      Outside-lock λ m us v knows. h true m.inited_list us m v.placed v.same v.layout (knows refl)

  Inside-init_list :
      (b was : Bool) (us : List Node) (m : Mem)
      → Stands m us
      → m.inited_list ≡ b
      → (was ≡ true → b ≡ true)
      → Inside c false was us m (
          (if b
            then finish (pos 0)
            else do access (set_messages 0); access set_inited; finish (pos 0))
          >> locking
          >> k)
  unfolding finish set_messages set_inited
  Inside-init_list true was us m v on w = Inside-unlock true v (λ e. on) (λ e. on) Outside-relock
  Inside-init_list false was us m v off w =
      let none_placed = v.clean off in
      Inside-act tt _ refl (
        Inside-act tt _ refl (
          Inside-unlock true
            (record {
              placed = v.placed;
              same = v.same;
              layout = record {
                head = rw none_placed refl;
                nodes = v.layout.nodes;
                files = v.layout.files;
                room = v.layout.room;
                below = v.layout.below;
                apart = v.layout.apart;
              };
              clean = λ e. cc;
            })
            (λ e. refl) (λ e. refl) Outside-relock))

  Inside-enter :
      (b was : Bool) (us : List Node) (m : Mem)
      → Stands m us
      → m.inited_list ≡ b
      → (was ≡ true → b ≡ true)
      → Inside c false was us m ((if b then ret tt else do unlocking; init_list; locking) >> k)
  unfolding init_list get_inited
  Inside-enter true was us m v on w = h false was us m v.placed v.same v.layout on
  Inside-enter false was us m v off w =
      Inside-unlock false v (λ e. rw off (w e)) (λ e. cc)
        (Outside-lock λ m us v knows.
          Inside-act m.inited_list m refl
            (Inside-init_list m.inited_list m.inited_list us m v refl (λ e. e)))

  pub Outside-enter : Outside c false (enter >> k)
  unfolding enter get_inited
  Outside-enter = Outside-lock λ m us v knows.
      Inside-act m.inited_list m refl
        (Inside-enter m.inited_list m.inited_list us m v refl (λ e. e))
