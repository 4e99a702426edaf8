-- ===== src/Request/Treat.antt =====
-- server/servidor.c: `treat_request`.
pub mod Safety
use ssdd_final.Base.{Bool, if◌then◌else◌}
use ssdd_final.CString.{Bytes, strcmp_eq}
use ssdd_final.Rpc.{codes}
use ssdd_final.Request.World.{
  Env, Outcome, finished, Handler, go, pure, ◌>>=◌, ◌>>◌, close_exit, read_field,
}
use ssdd_final.Request.Commands.{
  handle_register, handle_unregister, handle_connect, handle_publish, handle_delete,
  handle_disconnect,
}
use ssdd_final.Request.Queries.{handle_list_users, handle_list_content}

-- the `if … else if …` on the operation; any other operation does nothing
unfoldable pub dispatch : Env → Bytes → Handler (Unit {0})
dispatch env operation =
    if strcmp_eq operation (codes "REGISTER")
    then handle_register env operation
    else if strcmp_eq operation (codes "UNREGISTER")
    then handle_unregister env operation
    else if strcmp_eq operation (codes "CONNECT")
    then handle_connect env operation
    else if strcmp_eq operation (codes "PUBLISH")
    then handle_publish env operation
    else if strcmp_eq operation (codes "DELETE")
    then handle_delete env operation
    else if strcmp_eq operation (codes "DISCONNECT")
    then handle_disconnect env operation
    else if strcmp_eq operation (codes "LIST_USERS")
    then handle_list_users env operation
    else if strcmp_eq operation (codes "LIST_CONTENT")
    then handle_list_content env operation
    else pure tt

-- `pthread_exit` with the socket left open
exit_open : Handler (Unit {0})
exit_open = finished

unfoldable pub treat_request : Env → Handler (Unit {0})
unfolding exit_open
treat_request env =
    if env.buffers
    then (do operation ← read_field; dispatch env operation; close_exit)
    else exit_open
