-- ===== src/Tests/Threads.antt =====
-- Two threads that register the same name and connect it, and one that asks for the users online, a
-- step each in turn.
use ssdd_final.Base.{ℕ, zero, suc, ◌≡◌, ◌≢◌, refl, true, false, none, some, [], ◌∷◌, ◌++◌, arith}
use ssdd_final.CString.{strcmp_eq, strncpy, is_set}
use ssdd_final.Rpc.{codes}
use ssdd_final.Registry.Defs.{ℤ, pos}
use ssdd_final.Registry.History.{Call}
use ssdd_final.Registry.Lists.{UsersReply, cell, null}
use ssdd_final.Registry.Serve.{Work, change, ask_users, Reply, coded, users, HasRoom, FitsWork}
use ssdd_final.Tests.Schedule.{run, in_turn, alone}
use ssdd_final.Threads.{ret, System, Reach, start}
use ssdd_final.Threads.Discipline.Keeps.{Guarded}
use ssdd_final.Heap.{Mem, get_inited}
use ssdd_final.Heap.Users.{register_user, connect_user}
use ssdd_final.Heap.Lists.{list_users}
use ssdd_final.Heap.Serves.{Junk, change_code, code}
use ssdd_final.Heap.Destroy.{Destroyed, LocksItself, destroy_list, destroy_list-Destroyed}
use ssdd_final.Heap.Concurrent.{starts, Agrees, starts-Agrees, access-Guarded}

abbrev junk : ℕ → Junk
junk i = record {
  node = record {
    username = codes "?";
    ip = codes "?";
    port = codes "?";
    list_files = 9;
    next = 9;
  };
  file = record { filename = codes "?"; description = codes "?"; next = 9 };
}

-- the first two register the name, the third connects it, all others ask for the users online
abbrev calls : ℕ → Work
calls zero = change (Call.register true (codes "a"))
calls (suc zero) = change (Call.register true (codes "a"))
calls (suc (suc zero)) = change (Call.connect (some (codes "10.0.0.2")) (codes "90") (codes "a"))
calls (suc (suc (suc i))) = ask_users (λ j. true) true (codes "a")

abbrev begin : System Mem Reply
begin = starts junk calls

abbrev both : (t : System Mem Reply) × Reach begin t
both = run begin start (in_turn 50)

-- one of them finds the name taken
codes_returned : (both.0.threads 0 ≡ ret (coded (pos 0))) × (both.0.threads 1 ≡ ret (coded (pos 1)))
unfolding code change_code register_user strcmp_eq strncpy
codes_returned = (refl, refl)

abbrev asked : (t : System Mem Reply) × Reach begin t
asked = run both.0 both.1 (alone 2 30 ++ alone 3 40)

-- the user who has connected is the only one online
users_returned :
    asked.0.threads 3
    ≡ ret (
        users (
          UsersReply.listed
            (cell (record { username = codes "a"; ip = codes "10.0.0.2"; port = codes "90" }) null)
            1))
unfolding code change_code register_user connect_user list_users strcmp_eq strncpy is_set
users_returned = refl

fits : (i : ℕ) → FitsWork (calls i)
unfolding is_set
fits zero = omega arith
fits (suc zero) = omega arith
fits (suc (suc zero)) = ((refl, omega arith), omega arith)
fits (suc (suc (suc i))) = tt

has : (i : ℕ) → HasRoom (calls i)
has zero = tt
has (suc zero) = tt
has (suc (suc zero)) = tt
has (suc (suc (suc i))) = (refl, λ j. refl)

starts-Agrees_example : Agrees calls has fits asked.0
unfolding code change_code register_user connect_user list_users
starts-Agrees_example = starts-Agrees calls has junk fits asked.1

-- the first thread has the mutex and reads `inited_list`
abbrev first_in : (t : System Mem Reply) × Reach begin t
first_in = run begin start (0 ∷ [])

access-Guarded_example : Guarded first_in.0 0 get_inited
unfolding code change_code register_user connect_user list_users
access-Guarded_example = access-Guarded calls has junk first_in.1 0 get_inited _ refl

-- a thread that destroys the list that the threads above have left, while all others have returned
abbrev destroying : System Mem ℤ
destroying = record {
  mem = asked.0.mem;
  owner = none;
  threads = λ i. elim i [ zero ↦ destroy_list | suc n ↦ ret (pos 0) ];
}

destroy_list-Destroyed_example :
    (destroying.mem.inited_list ≡ true → Destroyed destroying.mem)
    × (destroying.mem.inited_list ≡ false → LocksItself destroying 0)
unfolding code change_code register_user connect_user list_users strcmp_eq strncpy is_set
destroy_list-Destroyed_example =
    let a = starts-Agrees calls has junk fits asked.1 in
    destroy_list-Destroyed destroying 0 a.users (a.stands refl) refl refl others_returned
  where
    others_returned : (j : ℕ) → j ≢ 0 → (a : ℤ) × (destroying.threads j ≡ ret a)
    others_returned zero n = absurd (n refl)
    others_returned (suc j) n = (pos 0, refl)
