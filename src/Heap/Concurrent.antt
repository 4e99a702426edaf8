-- ===== src/Heap/Concurrent.antt =====
-- server/list.c with any number of threads: each makes one call, as a request of server/servidor.c
-- does, and they interleave at every access to shared memory.
use ssdd_final.Base.{ℕ, ◌≡◌, ◌⊎◌, refl, false, none, List, [], ◌∷◌, arith}
use ssdd_final.Directory.{Directory}
use ssdd_final.Registry.Defs.{Node}
use ssdd_final.Registry.Search.{find_user}
use ssdd_final.Registry.Invariant.{IsTidy, view}
use ssdd_final.Registry.Serve.{Work, Reply, HasRoom, FitsWork, Promises, perform_work-Promises}
use ssdd_final.Threads.{ret, act, System, Step, Reach}
use ssdd_final.Threads.Discipline.Keeps.{Guarded}
use ssdd_final.Threads.Discipline.Serial.{
  Event, of_thread, Serial, none_yet, next, Reach-Serialized, Reach-Guarded, Reach_moves,
}
use ssdd_final.Heap.{Mem, Code, Access}
use ssdd_final.Heap.Layout.{files_at}
use ssdd_final.Heap.Chain.{chain_at}
use ssdd_final.Heap.Rules.{Stands}
use ssdd_final.Heap.Serves.{Junk, code, served, Checks-code}

-- the globals as the C loader initialises them, and an empty heap
abbrev pub start_mem : Mem
start_mem = record {
  messages = 0;
  inited_list = false;
  nodes = λ a. none;
  files = λ a. none;
  fresh = 1;
}

abbrev pub starts : (ℕ → Junk) → (ℕ → Work) → System Mem Reply
starts junk calls = record { mem = start_mem; owner = none; threads = λ i. code (junk i) (calls i) }

pub start-Stands : Stands start_mem []
unfolding chain_at files_at
start-Stands = record {
  placed = [];
  same = refl;
  layout = record {
    head = refl;
    nodes = λ a. refl;
    files = λ a. refl;
    room = omega arith;
    below = tt;
    apart = tt;
  };
  clean = λ e. refl;
}

-- The calls, the last one first, with the replies that the directory promises when they are made one
-- after another from the empty directory.
pub data Promised : List (Event Reply Work) → Directory → Type 0 where
  nothing : Promised [] (λ k. none)
  after :
      {es : List (Event Reply Work)} {d d' : Directory} {r : Reply} (i : ℕ) (w : Work)
      → Promised es d
      → Promises d w r d'
      → Promised (record { thread = i; call = w; result = r } ∷ es) d'

record Kept (es : List (Event Reply Work)) (us : List Node) : Type 0 where
  tidy : IsTidy us
  promised : Promised es (view us)

module _ (calls : ℕ → Work) (has : (i : ℕ) → HasRoom (calls i)) where
  module _ (fits : (i : ℕ) → FitsWork (calls i)) where
    Serial-Kept :
        {es : List (Event Reply Work)} {us : List Node} → Serial served calls [] es us → Kept es us
    unfolding find_user
    Serial-Kept none_yet = record {
      tidy = record { nodes = tt; distinct = tt };
      promised = nothing;
    }
    Serial-Kept (next i s e) =
        let k = Serial-Kept s in
        let (tidy, promises) = perform_work-Promises k.tidy (calls i) (has i) (fits i) e in
        record { tidy = tidy; promised = after i (calls i) k.promised promises }

    -- A state of the threads against the directory.
    pub record Agrees (s : System Mem Reply) : Type 1 where
      pub events : List (Event Reply Work)
      pub users : List Node
      pub tidy : IsTidy users
      pub promised : Promised events (view users)
      pub once :
          (i : ℕ)
          → (of_thread i events ≡ []) ⊎ ((a : Reply) × (of_thread i events ≡ (calls i, a) ∷ []))
      pub results :
          (i : ℕ) (a : Reply) → s.threads i ≡ ret a → of_thread i events ≡ (calls i, a) ∷ []
      pub stands : s.owner ≡ none → Stands s.mem users

  module _ (junk : ℕ → Junk) where
    -- Any number of threads that make one call each, an operation or a query, from the start of the
    -- program, in any interleaving of their accesses to memory, where the stored arguments fit their
    -- arrays and a query is given the memory for its response: in every reachable state the calls
    -- that have taken effect did so one after another, each at most once, with the codes and replies
    -- that the directory promises in that order, and a thread that has returned did so with the
    -- reply of its call. While the mutex is free the heap holds the list of users that stands for the
    -- directory, each node once, and no node that has leaked.
    pub starts-Agrees :
        (fits : (i : ℕ) → FitsWork (calls i)) {s : System Mem Reply}
        → Reach (starts junk calls) s
        → Agrees fits s
    starts-Agrees fits r =
        let z =
          Reach-Serialized served calls [] refl start-Stands
            (λ i. Checks-code (junk i) (calls i) (has i)) r in
        let k = Serial-Kept fits z.serial in
        record {
          events = z.events;
          users = z.state;
          tidy = k.tidy;
          promised = k.promised;
          once = z.once;
          results = z.results;
          stands = z.stands;
        }

    module _ {s : System Mem Reply} (r : Reach (starts junk calls) s) where
      -- In every reachable state, where a query is given the memory for its response, a thread that
      -- is at an access to the list or to a node holds the mutex, and the access is to a node that is
      -- there: no two threads race for the memory, nothing is used or freed after it has been freed,
      -- and no loop makes more rounds than addresses have been given out.
      pub access-Guarded :
          {X : Type 0} (i : ℕ) (f : Access X) (k : X → Code Reply)
          → s.threads i ≡ act f k
          → Guarded s i f
      access-Guarded i f k e =
          Reach-Guarded served calls [] refl start-Stands
            (λ i. Checks-code (junk i) (calls i) (has i)) i f k r e

      -- No deadlock, where a query is given the memory for its response: in every reachable state, a
      -- thread has returned or some thread can make a step.
      some_step :
          (i : ℕ) → ((a : Reply) × (s.threads i ≡ ret a)) ⊎ ((t : System Mem Reply) × Step s t)
      some_step i =
          Reach_moves served calls [] refl start-Stands
            (λ i. Checks-code (junk i) (calls i) (has i)) r i
