-- ===== src/Tests/Store.antt =====
-- list.c at the store of `Data`.
use ssdd_final.Base.{◌≡◌, refl, true, false, none, some, List, [], ◌∷◌, arith}
use ssdd_final.CString.{strcmp_eq, is_set}
use ssdd_final.Rpc.{codes}
use ssdd_final.Directory
use ssdd_final.Registry.Defs.{Store, initial, pos, fault}
use ssdd_final.Registry.Users.{register_user, unregister_user, connect_user, disconnect_user}
use ssdd_final.Registry.Users.Refine.{
  register_user-Refines, unregister_user-Refines, connect_user-Refines, disconnect_user-Refines,
}
use ssdd_final.Registry.Files.{register_file_from_user, unregister_file_from_user}
use ssdd_final.Registry.Files.Refine.{
  register_file_from_user-Refines, unregister_file_from_user-Refines,
}
use ssdd_final.Registry.Lists.{list_users, list_content}
use ssdd_final.Registry.Lists.Online.{UsersAnswer, list_users-UsersAnswer, list_users-fault}
use ssdd_final.Registry.Lists.Content.{FilesAnswer, list_content-FilesAnswer}
use ssdd_final.Registry.Search.{find_user}
use ssdd_final.Registry.Invariant.{view}
use ssdd_final.Registry.Refines.{Refines}
use ssdd_final.Registry.History.{
  Call, perform_all, promise, promise_all, Performs, perform_all-initial,
}
use ssdd_final.Tests.Data.{ann, store, store-IsValid}

register_user-Refines_example :
    Refines
      (register_user true (codes "eve") store)
      (Directory.register true (codes "eve") (view store.messages))
register_user-Refines_example = register_user-Refines store-IsValid true (codes "eve") (omega arith)

unregister_user-Refines_example :
    Refines
      (unregister_user (codes "ann") store)
      (Directory.unregister (codes "ann") (view store.messages))
unregister_user-Refines_example = unregister_user-Refines store-IsValid (codes "ann")

connect_user-Refines_example :
    Refines
      (connect_user (some (codes "10.0.0.2")) (codes "80") (codes "bob") store)
      (Directory.connect (some (codes "10.0.0.2")) (codes "80") (codes "bob") (view store.messages))
unfolding is_set
connect_user-Refines_example =
    connect_user-Refines store-IsValid (some (codes "10.0.0.2")) (codes "80") (codes "bob")
      (refl, omega arith) (omega arith)

disconnect_user-Refines_example :
    Refines
      (disconnect_user (codes "ann") store)
      (Directory.disconnect (codes "ann") (view store.messages))
disconnect_user-Refines_example = disconnect_user-Refines store-IsValid (codes "ann")

register_file_from_user-Refines_example :
    Refines
      (register_file_from_user true (codes "ann") (codes "g") (codes "text") store)
      (Directory.publish true (codes "ann") (codes "g") (codes "text") (view store.messages))
register_file_from_user-Refines_example =
    register_file_from_user-Refines store-IsValid true (codes "ann") (codes "g") (codes "text")
      (omega arith) (omega arith)

unregister_file_from_user-Refines_example :
    Refines
      (unregister_file_from_user (codes "ann") (codes "f") store)
      (Directory.delete (codes "ann") (codes "f") (view store.messages))
unregister_file_from_user-Refines_example =
    unregister_file_from_user-Refines store-IsValid (codes "ann") (codes "f")

list_users-UsersAnswer_example :
    UsersAnswer store
      (view store.messages)
      (codes "ann")
      (list_users (λ i. true) true (codes "ann") store)
list_users-UsersAnswer_example =
    list_users-UsersAnswer store-IsValid (λ i. true) (codes "ann") (λ i. refl)

list_users-fault_example : list_users (λ i. true) false (codes "ann") store ≡ fault
unfolding find_user strcmp_eq is_set
list_users-fault_example = list_users-fault store-IsValid (λ i. true) (codes "ann") ann refl refl

list_content-FilesAnswer_example :
    FilesAnswer store
      (view store.messages)
      (codes "ann")
      (codes "bob")
      (list_content (λ i. true) true (codes "ann") (codes "bob") store)
list_content-FilesAnswer_example =
    list_content-FilesAnswer store-IsValid (λ i. true) (codes "ann") (codes "bob") (λ i. refl)

abbrev held : Store
held = record store { locked = true }

abbrev calls : List Call
calls =
    Call.register true (codes "ann")
    ∷ Call.register true (codes "ann")
    ∷ Call.connect (some (codes "10.0.0.1")) (codes "90") (codes "ann")
    ∷ Call.publish true (codes "ann") (codes "f") (codes "d")
    ∷ Call.delete (codes "ann") (codes "g")
    ∷ Call.disconnect (codes "ann")
    ∷ []

perform_all-initial_example : Performs (perform_all calls initial) (promise_all calls (λ k. none))
unfolding is_set
perform_all-initial_example = perform_all-initial calls (
  omega arith,
  (omega arith, (((refl, omega arith), omega arith), ((omega arith, omega arith), (tt, (tt, tt))))),
)

-- A name that is taken, a file that is missing.
codes_of_calls :
    (promise_all calls (λ k. none)).0 ≡ pos 0 ∷ pos 1 ∷ pos 0 ∷ pos 0 ∷ pos 3 ∷ pos 0 ∷ []
unfolding promise_all promise Directory.register Directory.connect Directory.publish
    Directory.delete Directory.disconnect strcmp_eq is_set
codes_of_calls = refl
