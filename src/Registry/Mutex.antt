-- ===== src/Registry/Mutex.antt =====
-- The mutex of list.c: who waits for it, and the call of `init_list` in `destroy_list`.
use ssdd_final.Base.{ℕ, ◌≡◌, Bool, true, false, Option, inl, inr, Bool-cases, if◌then◌else◌}
use ssdd_final.CString.{Bytes}
use ssdd_final.Registry.Defs.{Store, initial, pos, done, blocked, destroy_list}
use ssdd_final.Registry.Users.{register_user, unregister_user, connect_user, disconnect_user}
use ssdd_final.Registry.Files.{register_file_from_user, unregister_file_from_user}
use ssdd_final.Registry.Lists.{list_users, list_content}

-- While another thread holds the mutex, none of the eight operations that the server calls returns:
-- each waits before it reads or writes the list.
blocked_while_locked :
    (s : Store) (room : Bool) (rooms : ℕ → Bool) (peer : Option Bytes)
    (name port file text target : Bytes)
    → s.locked ≡ true
    → (register_user room name s ≡ blocked)
      × (unregister_user name s ≡ blocked)
      × (connect_user peer port name s ≡ blocked)
      × (disconnect_user name s ≡ blocked)
      × (register_file_from_user room name file text s ≡ blocked)
      × (unregister_file_from_user name file s ≡ blocked)
      × (list_users rooms room name s ≡ blocked)
      × (list_content rooms room name target s ≡ blocked)
unfolding register_user unregister_user connect_user disconnect_user register_file_from_user
    unregister_file_from_user list_users list_content
blocked_while_locked s room rooms peer name port file text target h =
    (rw h, rw h, rw h, rw h, rw h, rw h, rw h, rw h)

-- With the mutex free, `destroy_list` returns 0 and restores the globals that the program starts
-- with if the list has been initialised. If it has not, the thread waits forever for the mutex that
-- it holds itself.
destroy_list_lem :
    (s : Store)
    → s.locked ≡ false
    → destroy_list s ≡ (if s.inited_list then done (pos 0) initial else blocked)
unfolding destroy_list
destroy_list_lem s free = elim (Bool-cases s.inited_list) [
  | inl old ↦ rw (free, old)
  | inr new ↦ rw (free, new)
]
