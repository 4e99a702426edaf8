-- ===== src/Tests/Queries.antt =====
-- The two queries from their bytes to the reply.
use ssdd_final.Base.{refl, List, [], ◌∷◌, ◌++◌, arith, length, ◌≡◌}
use ssdd_final.CString.{Bytes, is_set, strcmp_eq, c_str, strncpy}
use ssdd_final.Rpc.{codes}
use ssdd_final.Lines.{ReadEvent, takes, broken, reset, read_line, send_message}
use ssdd_final.Lines.ReadLine.{here, next}
use ssdd_final.Registry.Invariant.{view}
use ssdd_final.Registry.Lists.{list_users}
use ssdd_final.Request.Queries.{handle_list_users}
use ssdd_final.Request.World.{
  World, Outcome, finished, signalled, read_field, clear_buffer, backend, rpc_llamada, send_error,
  send_or_exit,
}
use ssdd_final.Request.Decimal.{decimal}
use ssdd_final.Request.Treat.{dispatch, treat_request}
use ssdd_final.Request.Fields.{over, field}
use ssdd_final.Request.Emits.{Replies}
use ssdd_final.Request.ListUsers.{UsersText, treat_request-UsersText}
use ssdd_final.Request.ListContent.{FilesText, treat_request-FilesText}
use ssdd_final.Request.Cut.{Cut}
use ssdd_final.Request.Cut.Users.{treat_request-UsersCut}
use ssdd_final.Request.Cut.Files.{treat_request-FilesCut}
use ssdd_final.Tests.Data.{store, store-IsValid, message, env, world}

abbrev users_input : List ReadEvent
users_input = message (codes "LIST_USERS" ∷ codes "t" ∷ codes "ann" ∷ [])

treat_request-UsersText_example :
    (out : Bytes) × UsersText (view store.messages) (codes "ann") out
    × Replies
        (world users_input)
        []
        (record {
          username = codes "ann";
          operation = codes "LIST_USERS";
          date = codes "t";
          file = [];
        })
        out
        (treat_request env (world users_input))
treat_request-UsersText_example =
    treat_request-UsersText env (world users_input) (codes "t") (codes "ann") refl refl refl
      (λ i. refl) store-IsValid tt ((ground arith, omega arith), (ground arith, omega arith))
      (field (next (next (next (next (next (next (next (next (next (next here))))))))))
        (field (next here) (field (next (next (next here))) over)))

abbrev files_input : List ReadEvent
files_input = message (codes "LIST_CONTENT" ∷ codes "t" ∷ codes "ann" ∷ codes "ann" ∷ [])

treat_request-FilesText_example :
    (out : Bytes) × FilesText (view store.messages) (codes "ann") (codes "ann") out
    × Replies
        (world files_input)
        []
        (record {
          username = codes "ann";
          operation = codes "LIST_CONTENT";
          date = codes "t";
          file = [];
        })
        out
        (treat_request env (world files_input))
treat_request-FilesText_example =
    treat_request-FilesText env (world files_input) (codes "t") (codes "ann") (codes "ann") refl
      refl refl (λ i. refl) store-IsValid tt
      ((ground arith, omega arith), (ground arith, omega arith), (ground arith, omega arith))
      (field
        (next (next (next (next (next (next (next (next (next (next (next (next here))))))))))))
        (field (next here)
          (field (next (next (next here))) (field (next (next (next here))) over))))

-- the first write fails, the second takes a byte, the third fails
abbrev lossy : List ReadEvent → World
lossy input = record (world input) { events = broken ∷ takes 1 ∷ broken ∷ [] }

treat_request-UsersCut_example :
    (code : Bytes) × (body : Bytes) × (length code ≡ 2)
    × UsersText (view store.messages) (codes "ann") (code ++ body)
    × Cut
        (lossy users_input)
        []
        (record {
          username = codes "ann";
          operation = codes "LIST_USERS";
          date = codes "t";
          file = [];
        })
        code
        body
        (treat_request env (lossy users_input))
treat_request-UsersCut_example =
    treat_request-UsersCut env (lossy users_input) (codes "t") (codes "ann") refl refl refl
      (λ i. refl) store-IsValid ((ground arith, omega arith), (ground arith, omega arith))
      (field (next (next (next (next (next (next (next (next (next (next here))))))))))
        (field (next here) (field (next (next (next here))) over)))

treat_request-FilesCut_example :
    (code : Bytes) × (body : Bytes) × (length code ≡ 2)
    × FilesText (view store.messages) (codes "ann") (codes "ann") (code ++ body)
    × Cut
        (lossy files_input)
        []
        (record {
          username = codes "ann";
          operation = codes "LIST_CONTENT";
          date = codes "t";
          file = [];
        })
        code
        body
        (treat_request env (lossy files_input))
treat_request-FilesCut_example =
    treat_request-FilesCut env (lossy files_input) (codes "t") (codes "ann") (codes "ann") refl refl
      refl (λ i. refl) store-IsValid
      ((ground arith, omega arith), (ground arith, omega arith), (ground arith, omega arith))
      (field
        (next (next (next (next (next (next (next (next (next (next (next (next here))))))))))))
        (field (next here)
          (field (next (next (next here))) (field (next (next (next here))) over))))

-- the bytes sent, where the thread has ended
abbrev sent_of : Outcome (Unit {0}) → Bytes
sent_of (finished w) = w.sent
sent_of o = []

-- The code is lost, and what follows it is not: the client takes the number of users for the code.
code_lost :
    sent_of (treat_request env (record (world users_input) { events = broken ∷ [] }))
    ≡ codes "1" ++ 0 ∷ codes "ann" ++ 0 ∷ codes "10.0.0.1" ++ 0 ∷ codes "90" ++ 0 ∷ []
unfolding treat_request read_field read_line dispatch strcmp_eq c_str handle_list_users clear_buffer
    backend list_users is_set rpc_llamada send_error send_or_exit send_message decimal strncpy
code_lost = refl

-- whether a signal has ended the process, and what had gone out by then
abbrev lost_with : Outcome (Unit {0}) → Bytes
lost_with (signalled w) = w.sent
lost_with o = []

-- The client resets the connection behind the code, and the process ends.
process_lost :
    lost_with (treat_request env (record (world users_input) { events = takes 2 ∷ reset ∷ [] }))
    ≡ codes "0" ++ 0 ∷ []
unfolding treat_request read_field read_line dispatch strcmp_eq c_str handle_list_users clear_buffer
    backend list_users is_set rpc_llamada send_error send_or_exit send_message decimal strncpy
process_lost = refl
