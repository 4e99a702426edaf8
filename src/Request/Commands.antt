-- ===== src/Request/Commands.antt =====
-- server/servidor.c: the branches of `treat_request` for the six operations that answer a code. Each
-- begins behind the line that names the operation.
pub mod Safety
use ssdd_final.Base.{[], Bool}
use ssdd_final.CString.{Bytes}
use ssdd_final.Registry.Users.{register_user, unregister_user, connect_user, disconnect_user}
use ssdd_final.Registry.Files.{register_file_from_user, unregister_file_from_user}
use ssdd_final.Request.World.{
  Env, Handler, go, ◌>>=◌, ◌>>◌, clear_buffer, read_field, backend, send_error, rpc_llamada,
}

unfoldable pub handle_register : Env → Bytes → Handler (Unit {0})
handle_register env operation = do
  clear_buffer
  date ← read_field
  clear_buffer
  username ← read_field
  error ← backend (register_user env.room username)
  clear_buffer
  rpc_llamada env username operation date []
  send_error error

unfoldable pub handle_unregister : Env → Bytes → Handler (Unit {0})
handle_unregister env operation = do
  clear_buffer
  date ← read_field
  clear_buffer
  username ← read_field
  error ← backend (unregister_user username)
  clear_buffer
  rpc_llamada env username operation date []
  send_error error

unfoldable pub handle_connect : Env → Bytes → Handler (Unit {0})
handle_connect env operation = do
  clear_buffer
  date ← read_field
  clear_buffer
  username ← read_field
  clear_buffer
  port ← read_field
  error ← backend (connect_user env.peer port username)
  clear_buffer
  rpc_llamada env username operation date []
  send_error error

unfoldable pub handle_publish : Env → Bytes → Handler (Unit {0})
handle_publish env operation = do
  clear_buffer
  date ← read_field
  clear_buffer
  username ← read_field
  clear_buffer
  file ← read_field
  clear_buffer
  description ← read_field
  error ← backend (register_file_from_user env.room username file description)
  clear_buffer
  rpc_llamada env username operation date file
  send_error error

unfoldable pub handle_delete : Env → Bytes → Handler (Unit {0})
handle_delete env operation = do
  clear_buffer
  date ← read_field
  clear_buffer
  username ← read_field
  clear_buffer
  file ← read_field
  error ← backend (unregister_file_from_user username file)
  clear_buffer
  rpc_llamada env username operation date file
  send_error error

unfoldable pub handle_disconnect : Env → Bytes → Handler (Unit {0})
handle_disconnect env operation = do
  clear_buffer
  date ← read_field
  clear_buffer
  username ← read_field
  error ← backend (disconnect_user username)
  clear_buffer
  rpc_llamada env username operation date []
  send_error error
