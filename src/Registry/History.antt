-- ===== src/Registry/History.antt =====
-- Sequences of calls of list.c against sequences of operations of the directory.
use ssdd_final.Base.{◌≡◌, refl, Bool, Option, none, List, [], ◌∷◌, All}
use ssdd_final.CString.{Bytes, IsTerminated}
use ssdd_final.Directory
use ssdd_final.Directory.{Directory}
use ssdd_final.Registry.Defs.{Store, initial, ℤ, Run, done, Op, pure, ◌>>=◌}
use ssdd_final.Registry.Users.{register_user, unregister_user, connect_user, disconnect_user}
use ssdd_final.Registry.Users.Refine.{
  IsAddress, register_user-Refines, unregister_user-Refines, connect_user-Refines,
  disconnect_user-Refines,
}
use ssdd_final.Registry.Files.{register_file_from_user, unregister_file_from_user}
use ssdd_final.Registry.Files.Refine.{
  register_file_from_user-Refines, unregister_file_from_user-Refines,
}
use ssdd_final.Registry.Search.{find_user}
use ssdd_final.Registry.Invariant.{IsValid, ready, ready-IsValid, view}
use ssdd_final.Registry.Refines.{Refines}

-- a call with its arguments and what `malloc` and `getpeername` give it
pub data Call : Type 0 where
  register : Bool → (name : Bytes) → Call
  unregister : (name : Bytes) → Call
  connect : Option Bytes → (port name : Bytes) → Call
  disconnect : (name : Bytes) → Call
  publish : Bool → (name file description : Bytes) → Call
  delete : (name file : Bytes) → Call

unfoldable pub perform : Call → Op ℤ
perform (register room name) = register_user room name
perform (unregister name) = unregister_user name
perform (connect peer port name) = connect_user peer port name
perform (disconnect name) = disconnect_user name
perform (publish room name file description) = register_file_from_user room name file description
perform (delete name file) = unregister_file_from_user name file

unfoldable pub promise : Call → Directory → ℤ × Directory
promise (register room name) = Directory.register room name
promise (unregister name) = Directory.unregister name
promise (connect peer port name) = Directory.connect peer port name
promise (disconnect name) = Directory.disconnect name
promise (publish room name file description) = Directory.publish room name file description
promise (delete name file) = Directory.delete name file

-- The stored arguments fit their arrays.
abbrev pub Fits : Call → Type 0
Fits (register room name) = IsTerminated name
Fits (connect peer port name) = IsAddress peer × IsTerminated port
Fits (publish room name file description) = IsTerminated file × IsTerminated description
Fits _ = Unit

-- Each call returns the code of its directory operation and leaves its directory.
pub perform-Refines :
    {s : Store}
    → IsValid s
    → (c : Call) → Fits c
    → Refines (perform c s) (promise c (view s.messages))
unfolding perform promise
perform-Refines v (register room name) h = register_user-Refines v room name h
perform-Refines v (unregister name) h = unregister_user-Refines v name
perform-Refines v (connect peer port name) h = connect_user-Refines v peer port name h.0 h.1
perform-Refines v (disconnect name) h = disconnect_user-Refines v name
perform-Refines v (publish room name file description) h =
    register_file_from_user-Refines v room name file description h.0 h.1
perform-Refines v (delete name file) h = unregister_file_from_user-Refines v name file

unfoldable pub perform_all : List Call → Op (List ℤ)
perform_all [] = pure []
perform_all (c ∷ cs) = do r ← perform c; rs ← perform_all cs; pure (r ∷ rs)

unfoldable pub promise_all : List Call → Directory → List ℤ × Directory
promise_all [] d = ([], d)
promise_all (c ∷ cs) d =
    let (r, d') = promise c d in let (rs, d'') = promise_all cs d' in (r ∷ rs, d'')

-- The run ends, with these codes, in a valid store that stands for this directory.
pub record Performs (r : Run (List ℤ)) (spec : List ℤ × Directory) : Type 0 where
  pub last : Store
  pub runs : r ≡ done spec.0 last
  pub valid : IsValid last
  pub same : view last.messages ≡ spec.1

perform_all-Performs :
    (cs : List Call) (s : Store)
    → IsValid s
    → All Fits cs
    → Performs (perform_all cs s) (promise_all cs (view s.messages))
unfolding perform_all promise_all
perform_all-Performs [] s v h = record { last = s; runs = refl; valid = v; same = refl }
perform_all-Performs (c ∷ cs) s v h =
    let one = perform-Refines v c h.0 in
    let rest = perform_all-Performs cs (ready one.after) (ready-IsValid one.tidy) h.1 in
    rw (one.runs, ← one.same)
      (record { last = rest.last; runs = rw rest.runs; valid = rest.valid; same = rest.same })

pub initial-IsValid : IsValid initial
initial-IsValid = record {
  free = refl;
  clean = λ e. refl;
  tidy = record { nodes = tt; distinct = tt };
}

-- From the state in which the program starts, every sequence of calls whose stored arguments fit
-- their arrays runs to its end and never waits for the mutex. It returns the codes that the
-- directory gives for the sequence from the empty directory, and it ends in a valid store that
-- stands for the directory after the sequence.
pub perform_all-initial :
    (cs : List Call) → All Fits cs → Performs (perform_all cs initial) (promise_all cs (λ k. none))
unfolding find_user
perform_all-initial cs h = perform_all-Performs cs initial initial-IsValid h
