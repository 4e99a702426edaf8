-- ===== src/Request/Client/Race.antt =====
-- What a thread does to the handles of the log server, alone and beside another thread.
use ssdd_final.Base.{
  ℕ, suc, ◌≡◌, ◌≢◌, ◌<◌, refl, sym, ◌∙◌, Bool, true, false, Option, none, [], ◌∷◌, ◌++◌, arith,
  update, update-same, if◌then◌else◌, ◌==◌, Bool-cases, inl, inr,
}
use ssdd_final.CString.{Bytes}
use ssdd_final.Threads.{ret, act, ◌>>=◌, ◌>>◌, System, Reach, start, bind_assoc}
use ssdd_final.Threads.Alone.{Runs, stop, go, Runs-then, Runs-Ran}
use ssdd_final.Request.World.{LogCall}
use ssdd_final.Request.Client.{
  Clients, Client, get_ip_rpc, get_clnt, set_clnt, clnt_create, print_1, clnt_perror, clnt_destroy,
  create_client, report, call_server, rpc_llamada,
}

abbrev created : Clients → Clients
created m = record m { clnt = m.fresh; live = update m.live m.fresh true; fresh = suc m.fresh }

abbrev called : LogCall → Clients → Clients
called call m = record m { live = update m.live m.clnt false; calls = m.calls ++ call ∷ [] }

module _ {A : Type 0} where
  Runs-create_client :
      (connects : Option Bytes → Bool) (k : Bool → Client A) (m : Clients)
      → connects m.ip_rpc ≡ true
      → 0 < m.fresh
      → Runs (create_client connects >>= k) m (k true) (created m)
  unfolding create_client get_ip_rpc clnt_create set_clnt get_clnt
  Runs-create_client connects k m up h =
      let off : (m.fresh == 0) ≡ false = ground (arith, h) in
      go _ m refl (
        go m.fresh (record m { live = update m.live m.fresh true; fresh = suc m.fresh })
          (rw up refl) (go tt (created m) refl (go m.fresh (created m) refl (rw off (stop _ _)))))

  Runs-call_server :
      (success : Bool) (call : LogCall) (k : Unit {0} → Client A) (m : Clients)
      → m.live m.clnt ≡ true
      → Runs (call_server success call >>= k) m (k tt) (called call m)
  unfolding call_server report get_clnt print_1 clnt_perror clnt_destroy
  Runs-call_server true call k m h =
      let m' : Clients = record m { calls = m.calls ++ call ∷ [] } in
      go m.clnt m refl
        (go true m' (rw h refl) (go m.clnt m' refl (go tt (called call m) (rw h refl) (stop _ _))))
  Runs-call_server false call k m h =
      let m' : Clients = record m { calls = m.calls ++ call ∷ [] } in
      go m.clnt m refl (
        go false m' (rw h refl) (
          go m.clnt m' refl (
            go tt m' (rw h refl)
              (go m.clnt m' refl (go tt (called call m) (rw h refl) (stop _ _))))))

-- What `rpc_llamada` has done, with no other thread between: it returns where the log server can be
-- reached, with one more call made, and otherwise ends the process with none made; the same handles
-- live as before.
pub record Calls (connects : Option Bytes → Bool) (success : Bool) (call : LogCall) (m : Clients)
    : Type 1 where
  pub after : Clients
  pub runs : Runs (rpc_llamada connects success call) m (ret (connects m.ip_rpc)) after
  pub made : after.calls ≡ (if connects m.ip_rpc then m.calls ++ call ∷ [] else m.calls)
  pub handles : (p : ℕ) → after.live p ≡ m.live p

-- A thread that no other disturbs, in a state where the address of the next handle is not NULL and
-- not in use: `rpc_llamada` returns exactly where the log server can be reached, and then has made
-- the one call, whether that call succeeds or not; where it cannot be reached the process ends with
-- no call made. Only handles that live are used, and none is left behind.
pub rpc_llamada-Calls :
    (connects : Option Bytes → Bool) (success : Bool) (call : LogCall) (m : Clients)
    → 0 < m.fresh
    → m.live m.fresh ≡ false
    → Calls connects success call m
unfolding rpc_llamada create_client get_ip_rpc clnt_create set_clnt get_clnt
rpc_llamada-Calls connects success call m h dead = elim (Bool-cases (connects m.ip_rpc)) [
  | inl up ↦ record {
    after = called call (created m);
    runs = rw up (
        Runs-then
          (Runs-create_client connects
            (λ made. if made then call_server success call >> ret true else ret false) m up h)
          (Runs-call_server success call (λ _. ret true) (created m)
            (update-same m.live m.fresh true)));
    made = rw up refl;
    handles = λ p. ground (arith, dead);
  }
  | inr down ↦ record {
    after = record m { clnt = 0 };
    runs = rw down (
        go _ m refl (
          go 0 m (rw down refl)
            (go tt (record m { clnt = 0 }) refl (go 0 (record m { clnt = 0 }) refl (stop _ _)))));
    made = rw down refl;
    handles = λ p. refl;
  }
]

print_1-dead :
    (success : Bool) (p : ℕ) (call : LogCall) (m : Clients)
    → m.live p ≡ false
    → print_1 success p call m ≡ none
unfolding print_1
print_1-dead success p call m h = rw h refl

-- Thread `i` takes the handle of thread `j` away. First `j` is about to call `print_1` with a handle
-- that lives; without a step of `j`, `i` then makes its own call, destroys that handle and goes on,
-- so that the call that `j` is about to make is an error.
pub record TakesHandle {A : Type 0} (s : System Clients A) (i j : ℕ) (call : LogCall)
    (k : Bool → Client A) (success' : Bool) (call' : LogCall) : Type 1 where
  pub ready : System Clients A
  pub after : System Clients A
  pub handle : ℕ
  pub rest : Bool → Client A
  pub reached : Reach s ready
  pub at_call : ready.threads j ≡ act (print_1 success' handle call') rest
  pub lives : ready.mem.live handle ≡ true
  pub goes_on : Reach ready after
  pub still_there : after.threads j ≡ act (print_1 success' handle call') rest
  pub told : after.mem.calls ≡ s.mem.calls ++ call ∷ []
  pub through : after.threads i ≡ k true
  pub destroyed : after.mem.live handle ≡ false
  pub fails : print_1 success' handle call' after.mem ≡ none

-- While two different threads are about to call `rpc_llamada`, whatever the other threads are doing,
-- where the log server can be reached and the next handle is not NULL: there is an interleaving in
-- which the second is about to call `print_1` with a handle that lives, and then, with the second
-- still there, the first makes its call, destroys that handle and goes on behind `rpc_llamada`, so
-- that the call of the second uses a handle that has been destroyed.
pub rpc_llamada_race :
    {A : Type 0} (s : System Clients A) (i j : ℕ) (connects : Option Bytes → Bool)
    (success success' : Bool) (call call' : LogCall) (k k' : Bool → Client A)
    → i ≢ j
    → connects s.mem.ip_rpc ≡ true
    → 0 < s.mem.fresh
    → s.threads i ≡ (rpc_llamada connects success call >>= k)
    → s.threads j ≡ (rpc_llamada connects success' call' >>= k')
    → TakesHandle s i j call k success' call'
unfolding rpc_llamada call_server get_clnt
rpc_llamada_race {A} s i j connects success success' call call' k k' n up h e e' =
    let G = λ (b : Bool) (c : LogCall) (l : Bool → Client A) (made : Bool).
      (if made then call_server b c >> ret true else ret false) >>= l in
    let e₁ = e ∙ bind_assoc (create_client connects) _ k in
    let e₁' = e' ∙ bind_assoc (create_client connects) _ k' in
    let one =
      Runs-Ran s s i (Runs-create_client connects (G success call k) s.mem up h) start refl e₁ in
    let two =
      Runs-Ran s one.after j
        (Runs-create_client connects (G success' call' k') (created s.mem) up (omega (arith, h)))
        one.reached one.mem (one.others j (λ x. n (sym x)) ∙ e₁') in
    let both = created (created s.mem) in
    let mine : both.live (suc s.mem.fresh) ≡ true =
      update-same (created s.mem).live (suc s.mem.fresh) true in
    let three =
      Runs-Ran s two.after j (go (suc s.mem.fresh) both refl (stop _ _)) two.reached two.mem
        two.here in
    let four =
      Runs-Ran three.after three.after i (Runs-call_server success call (λ _. k true) both mine)
        start three.mem
        (three.others i n
          ∙ two.others i n
          ∙ one.here
          ∙ bind_assoc (call_server success call) _ k) in
    let gone : (called call both).live (suc s.mem.fresh) ≡ false =
      update-same both.live (suc s.mem.fresh) false in
    record {
      ready = three.after;
      after = four.after;
      handle = suc s.mem.fresh;
      rest = _;
      reached = three.reached;
      at_call = three.here;
      lives = rw three.mem mine;
      goes_on = four.reached;
      still_there = four.others j (λ x. n (sym x)) ∙ three.here;
      told = rw four.mem refl;
      through = four.here;
      destroyed = rw four.mem gone;
      fails = rw four.mem (print_1-dead success' (suc s.mem.fresh) call' (called call both) gone);
    }
