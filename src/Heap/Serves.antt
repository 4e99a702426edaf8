-- ===== src/Heap/Serves.antt =====
-- server/list.c: the code of any call, on the heap, and that it keeps to the mutex.
use ssdd_final.Base.{◌≡◌, refl, Bool, true, false, List}
use ssdd_final.Registry.Defs.{Node, ℤ, done, Op}
use ssdd_final.Registry.Lists
use ssdd_final.Registry.Invariant.{ready}
use ssdd_final.Registry.History.{Call, perform}
use ssdd_final.Registry.Serve.{
  Work, change, ask_users, ask_content, Reply, coded, users, files, perform_work, HasRoom,
}
use ssdd_final.Threads.{ret, lock, ◌>>=◌}
use ssdd_final.Threads.Discipline.{Resource, pending, returned, outside, inside, commits, Checks}
use ssdd_final.Threads.Discipline.Lift.{Checks-lift}
use ssdd_final.Heap.{NodeCell, FileCell, Mem, Code}
use ssdd_final.Heap.Users.{register_user, unregister_user, connect_user, disconnect_user}
use ssdd_final.Heap.Users.Register.{Outside-register_user}
use ssdd_final.Heap.Users.Unregister.{Outside-unregister_user}
use ssdd_final.Heap.Users.Connect.{Outside-connect_user, Outside-disconnect_user}
use ssdd_final.Heap.Files.{register_file_from_user, unregister_file_from_user}
use ssdd_final.Heap.Files.Publish.{Outside-register_file_from_user}
use ssdd_final.Heap.Files.Delete.{Outside-unregister_file_from_user}
use ssdd_final.Heap.Lists.{list_users, list_content}
use ssdd_final.Heap.Lists.Reads.{Answers, answers, looks}
use ssdd_final.Heap.Lists.Users.{Answers-list_users}
use ssdd_final.Heap.Lists.Content.{Answers-list_content}
use ssdd_final.Heap.Layout.{Placed, erase, Layout}
use ssdd_final.Heap.Rules.{Stands, resource, Outside}

-- what the memory that `malloc` gives happens to hold
pub record Junk : Type 0 where
  pub node : NodeCell
  pub file : FileCell

unfoldable pub change_code : Junk → Call → Code ℤ
change_code junk (Call.register room name) = register_user room junk.node name
change_code junk (Call.unregister name) = unregister_user name
change_code junk (Call.connect peer port name) = connect_user peer port name
change_code junk (Call.disconnect name) = disconnect_user name
change_code junk (Call.publish room name file description) =
    register_file_from_user room junk.file name file description
change_code junk (Call.delete name file) = unregister_file_from_user name file

-- The reply of a call is its code, or what a query gives.
unfoldable pub code : Junk → Work → Code Reply
unfolding change_code
code junk (change c) = do z ← change_code junk c; ret (coded z)
code junk (ask_users room first name) = do r ← list_users room first name; ret (users r)
code junk (ask_content room first name target) = do
  r ← list_content room first name target
  ret (files r)

Outside-change_code : (junk : Junk) (c : Call) → Outside c false (change_code junk c)
unfolding change_code
Outside-change_code junk (Call.register room name) = Outside-register_user room junk.node name
Outside-change_code junk (Call.unregister name) = Outside-unregister_user name
Outside-change_code junk (Call.connect peer port name) = Outside-connect_user peer port name
Outside-change_code junk (Call.disconnect name) = Outside-disconnect_user name
Outside-change_code junk (Call.publish room name file description) =
    Outside-register_file_from_user room junk.file name file description
Outside-change_code junk (Call.delete name file) = Outside-unregister_file_from_user name file

-- what the mutex protects, for the calls and the queries together
abbrev pub served : Resource Mem Reply Work (List Node)
served = resource perform_work

Answers-Checks :
    {A : Type 0} (w : Work) {was : Bool} {us : List Node} {m : Mem} {p : Code A} {a : A}
    (g : A → Reply)
    → Answers m p a
    → Stands m us
    → (was ≡ true → m.inited_list ≡ true)
    → perform_work w (ready us) ≡ done (g a) (ready us)
    → Checks served (inside (pending w false) was us m) (p >>= λ r. ret (g r))
unfolding Checks
Answers-Checks w g (answers a) v k e = (returned (g a), _, v, k, tt, commits e, refl)
Answers-Checks w g (looks x f a) v k e = rw f (Answers-Checks w g a v k e)

-- A query keeps to the mutex: it takes it, looks, and gives it back.
Checks-query :
    {A : Type 0} (w : Work) (g : A → Reply) (run : Op A) (body : Code A)
    → ((us : List Node) (r : A)
        → run (ready us) ≡ done r (ready us)
        → perform_work w (ready us) ≡ done (g r) (ready us))
    → ((m : Mem) (ps : List Placed)
        → Layout m ps
        → (r : A) × Answers m body r × (run (ready (erase ps)) ≡ done r (ready (erase ps))))
    → Checks served (outside (pending w false)) (lock body >>= λ r. ret (g r))
unfolding Checks
Checks-query w g run body lifts answer m us v knows =
    let (r, a, e) = answer m v.placed v.layout in
    Answers-Checks w g a v (λ k. k) (lifts us r (rw v.same at e))

-- every call keeps to the mutex, on its own
pub Checks-code :
    (junk : Junk) (w : Work) → HasRoom w → Checks served (outside (pending w false)) (code junk w)
unfolding code perform_work list_users list_content
Checks-code junk (change c) h =
    Checks-lift Stands (λ m. m.inited_list)
      (λ c us a us'. perform c (ready us) ≡ done a (ready us'))
      (λ w us a us'. perform_work w (ready us) ≡ done a (ready us')) change coded
      (λ c us a us' e. rw e) (change_code junk c) (outside (pending c false))
      (Outside-change_code junk c).checks
Checks-code junk (ask_users room first name) h = rw h.0 (
    Checks-query (ask_users room true name) users (Lists.list_users room true name) _
      (λ us r e. rw e) (λ m ps l. Answers-list_users m room h.1 name ps l))
Checks-code junk (ask_content room first name target) h = rw h.0 (
    Checks-query (ask_content room true name target) files
      (Lists.list_content room true name target) _ (λ us r e. rw e)
      (λ m ps l. Answers-list_content m room h.1 name target ps l))
