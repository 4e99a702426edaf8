-- ===== src/Request/Commands/Safety.antt =====
-- The six commands keep the world sound, whatever lines they read.
use ssdd_final.Base.{Bool, []}
use ssdd_final.CString.{Bytes, IsTerminated}
use ssdd_final.Directory.{Directory}
use ssdd_final.Registry.Defs.{Store, ℤ, Op}
use ssdd_final.Registry.Users.{register_user, unregister_user, connect_user, disconnect_user}
use ssdd_final.Registry.Users.Refine.{
  IsAddress, register_user-Refines, unregister_user-Refines, connect_user-Refines,
  disconnect_user-Refines,
}
use ssdd_final.Registry.Files.{register_file_from_user, unregister_file_from_user}
use ssdd_final.Registry.Files.Refine.{
  register_file_from_user-Refines, unregister_file_from_user-Refines,
}
use ssdd_final.Registry.Invariant.{IsValid, ready, ready-IsValid}
use ssdd_final.Registry.Refines.{Refines}
use ssdd_final.Request.World.{
  Env, Handler, ◌>>=◌, ◌>>◌, clear_buffer, read_field, backend, send_error, rpc_llamada,
}
use ssdd_final.Request.World.Safety.{
  Keeps, Any, bind, Keeps-backend, Keeps-clear_buffer, Keeps-send_error, Keeps-rpc_llamada,
  Keeps-read_field,
}
use ssdd_final.Request.Commands.{
  handle_register, handle_unregister, handle_connect, handle_publish, handle_delete,
  handle_disconnect,
}

-- what a call of list.c leaves, where it implements an operation of the directory
pub Keeps-refining :
    {up : Bool} (op : Op ℤ)
    → ((s : Store) → IsValid s → (spec : ℤ × Directory) × Refines (op s) spec)
    → Keeps up Any (backend op)
Keeps-refining op refines =
    Keeps-backend op λ s v.
      let (spec, r) = refines s v in (spec.0, ready r.after, r.runs, ready-IsValid r.tidy, tt)

-- `memset`, then the next line
pub Keeps-next_field :
    {up : Bool} {A : Type 0} {P : A → Type 0} {k : Bytes → Handler A}
    → ((s : Bytes) → IsTerminated s → Keeps up P (k s))
    → Keeps up P (do clear_buffer; s ← read_field; k s)
Keeps-next_field next = bind Keeps-clear_buffer λ _ _. bind Keeps-read_field next

module _ (env : Env) (operation : Bytes) where
  Keeps-report :
      (error : ℤ) (username date file : Bytes)
      → Keeps env.log_up Any
          (do clear_buffer; rpc_llamada env username operation date file; send_error error)
  Keeps-report error username date file =
      bind Keeps-clear_buffer λ _ _.
        bind (Keeps-rpc_llamada env username operation date file) λ _ _. Keeps-send_error error

  pub Keeps-handle_register : Keeps env.log_up Any (handle_register env operation)
  unfolding handle_register
  Keeps-handle_register = Keeps-next_field λ date _. Keeps-next_field λ name fits.
      bind
        (Keeps-refining (register_user env.room name)
          λ s v. (_, register_user-Refines v env.room name fits))
        λ error _. Keeps-report error name date []

  pub Keeps-handle_unregister : Keeps env.log_up Any (handle_unregister env operation)
  unfolding handle_unregister
  Keeps-handle_unregister = Keeps-next_field λ date _. Keeps-next_field λ name fits.
      bind (Keeps-refining (unregister_user name) λ s v. (_, unregister_user-Refines v name))
        λ error _. Keeps-report error name date []

  pub Keeps-handle_connect :
      IsAddress env.peer → Keeps env.log_up Any (handle_connect env operation)
  unfolding handle_connect
  Keeps-handle_connect address = Keeps-next_field λ date _. Keeps-next_field λ name _.
      Keeps-next_field λ port fits.
        bind
          (Keeps-refining (connect_user env.peer port name)
            λ s v. (_, connect_user-Refines v env.peer port name address fits))
          λ error _. Keeps-report error name date []

  pub Keeps-handle_publish : Keeps env.log_up Any (handle_publish env operation)
  unfolding handle_publish
  Keeps-handle_publish = Keeps-next_field λ date _. Keeps-next_field λ name _.
      Keeps-next_field λ file fits. Keeps-next_field λ text fits'.
        bind
          (Keeps-refining (register_file_from_user env.room name file text)
            λ s v. (_, register_file_from_user-Refines v env.room name file text fits fits'))
          λ error _. Keeps-report error name date file

  pub Keeps-handle_delete : Keeps env.log_up Any (handle_delete env operation)
  unfolding handle_delete
  Keeps-handle_delete = Keeps-next_field λ date _. Keeps-next_field λ name _.
      Keeps-next_field λ file _.
        bind
          (Keeps-refining (unregister_file_from_user name file)
            λ s v. (_, unregister_file_from_user-Refines v name file))
          λ error _. Keeps-report error name date file

  pub Keeps-handle_disconnect : Keeps env.log_up Any (handle_disconnect env operation)
  unfolding handle_disconnect
  Keeps-handle_disconnect = Keeps-next_field λ date _. Keeps-next_field λ name _.
      bind (Keeps-refining (disconnect_user name) λ s v. (_, disconnect_user-Refines v name))
        λ error _. Keeps-report error name date []
