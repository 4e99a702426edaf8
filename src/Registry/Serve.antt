-- ===== src/Registry/Serve.antt =====
-- server/list.c as its client sees it: the six operations that answer a code, and the two queries.
use ssdd_final.Base.{ℕ, Bool, true, List, ◌≡◌, refl}
use ssdd_final.CString.{Bytes}
use ssdd_final.Directory.{Directory}
use ssdd_final.Registry.Defs.{Node, Store, ℤ, Run, done, Op, pure, ◌>>=◌}
use ssdd_final.Registry.Lists.{UsersReply, list_users, FilesReply, list_content}
use ssdd_final.Registry.Lists.Online.{UsersAnswer, list_users-UsersAnswer}
use ssdd_final.Registry.Lists.Content.{FilesAnswer, list_content-FilesAnswer}
use ssdd_final.Registry.History.{Call, Fits, perform, promise, perform-Refines}
use ssdd_final.Registry.Invariant.{IsTidy, ready, ready-IsValid, view}

-- A call, with what `malloc` gives it; in a query `first` is whether the caller has a node for the
-- response, and `room i` whether the `i`-th `malloc` succeeds.
pub data Work : Type 0 where
  change : Call → Work
  ask_users : (room : ℕ → Bool) (first : Bool) (name : Bytes) → Work
  ask_content : (room : ℕ → Bool) (first : Bool) (name target : Bytes) → Work

pub data Reply : Type 0 where
  coded : ℤ → Reply
  users : UsersReply → Reply
  files : FilesReply → Reply

unfoldable pub perform_work : Work → Op Reply
perform_work (change c) = do z ← perform c; pure (coded z)
perform_work (ask_users room first name) = do r ← list_users room first name; pure (users r)
perform_work (ask_content room first name target) = do
  r ← list_content room first name target
  pure (files r)

-- A query has the memory that it asks for, which list.c does not test.
abbrev pub HasRoom : Work → Type 0
HasRoom (change c) = Unit
HasRoom (ask_users room first name) = (first ≡ true) × ((i : ℕ) → room i ≡ true)
HasRoom (ask_content room first name target) = (first ≡ true) × ((i : ℕ) → room i ≡ true)

-- The arguments that a call stores fit their arrays.
abbrev pub FitsWork : Work → Type 0
FitsWork (change c) = Fits c
FitsWork _ = Unit

-- What the directory promises of a call: the code of an operation and the directory after it, the
-- reply to a query and the same directory.
pub data Promises (d : Directory) : Work → Reply → Directory → Type 0 where
  changes : (c : Call) → Promises d (change c) (coded (promise c d).0) (promise c d).1
  asks_users :
      {s : Store} {room : ℕ → Bool} {first : Bool} {name : Bytes} {r : UsersReply}
      → UsersAnswer s d name (done r s)
      → Promises d (ask_users room first name) (users r) d
  asks_content :
      {s : Store} {room : ℕ → Bool} {first : Bool} {name target : Bytes} {r : FilesReply}
      → FilesAnswer s d name target (done r s)
      → Promises d (ask_content room first name target) (files r) d

Answered-users :
    {s : Store} {d : Directory} {name : Bytes} {x : Run UsersReply}
    → UsersAnswer s d name x
    → (r : UsersReply) × (x ≡ done r s) × UsersAnswer s d name (done r s)
Answered-users (UsersAnswer.unknown e) = (_, refl, UsersAnswer.unknown e)
Answered-users (UsersAnswer.offline e h) = (_, refl, UsersAnswer.offline e h)
Answered-users (UsersAnswer.answered es e h holds n finds once) =
    (_, refl, UsersAnswer.answered es e h holds n finds once)

Answered-files :
    {s : Store} {d : Directory} {name target : Bytes} {x : Run FilesReply}
    → FilesAnswer s d name target x
    → (r : FilesReply) × (x ≡ done r s) × FilesAnswer s d name target (done r s)
Answered-files (FilesAnswer.unknown e) = (_, refl, FilesAnswer.unknown e)
Answered-files (FilesAnswer.offline e h) = (_, refl, FilesAnswer.offline e h)
Answered-files (FilesAnswer.no_target e h t) = (_, refl, FilesAnswer.no_target e h t)
Answered-files (FilesAnswer.answered e h t finds once) =
    (_, refl, FilesAnswer.answered e h t finds once)

done_both :
    {A : Type 0} {a b : A} {us vs : List Node}
    → done a (ready us) ≡ done b (ready vs)
    → (a ≡ b) × (us ≡ vs)
done_both e = (cc, cc)

-- Each call returns what the directory promises and leaves its directory.
pub perform_work-Promises :
    {us us' : List Node} {a : Reply}
    → IsTidy us
    → (w : Work) → HasRoom w
    → FitsWork w
    → perform_work w (ready us) ≡ done a (ready us')
    → IsTidy us' × Promises (view us) w a (view us')
unfolding perform_work
perform_work-Promises t (change c) room fits e =
    let r = perform-Refines (ready-IsValid t) c fits in
    let (code, same) = done_both (rw r.runs at e) in rw (← code, ← same, r.same) (r.tidy, changes c)
perform_work-Promises {us} t (ask_users room first name) has fits e =
    let (r, runs, answer) =
      Answered-users (list_users-UsersAnswer (ready-IsValid t) room name has.1) in
    let (reply, same) = done_both (rw (has.0, runs) at e) in
    rw (← reply, ← same) (t, asks_users answer)
perform_work-Promises {us} t (ask_content room first name target) has fits e =
    let (r, runs, answer) =
      Answered-files (list_content-FilesAnswer (ready-IsValid t) room name target has.1) in
    let (reply, same) = done_both (rw (has.0, runs) at e) in
    rw (← reply, ← same) (t, asks_content answer)
