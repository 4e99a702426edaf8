-- ===== src/Tests/Shared.antt =====
-- Request threads of two clients.
use ssdd_final.Base.{ℕ, zero, suc, false, true, ◌≡◌, refl, none, ◌∷◌, [], arith}
use ssdd_final.CString.{Bytes}
use ssdd_final.Rpc.{codes}
use ssdd_final.Lines.ReadLine.{here, next}
use ssdd_final.Threads.{System, Reach, ret}
use ssdd_final.Request.Shared.{Socket, Shared, Ending, went, get_field, ◌then_use◌}
use ssdd_final.Request.Shared.Race.{get_field_race}
use ssdd_final.Tests.Data.{message}

-- the name that a client sends
abbrev name : ℕ → Bytes
name zero = codes "ann"
name (suc n) = codes "bob"

abbrev socket_of : ℕ → Socket
socket_of i = record { input = message (name i ∷ []); closes = true; closed = false }

abbrev both : System (Shared Unit) (Ending Bytes)
both = record {
  mem = record { buffer = λ p. 0; sockets = socket_of; others = tt };
  owner = none;
  threads = λ i. get_field i then_use λ s. ret (went s);
}

-- the first thread goes on with the name that the second client has sent
get_field_race_example :
    (t : System (Shared Unit) (Ending Bytes)) × Reach both t
    × (t.threads 0 ≡ ret (went (codes "bob")))
get_field_race_example =
    get_field_race both 0 1 (λ s. ret (went s)) (λ s. ret (went s)) (codes "ann") (codes "bob") []
      [] (omega arith) refl refl ((refl, (refl, (refl, tt))), omega arith)
      ((refl, (refl, (refl, tt))), omega arith) (next (next (next here))) (next (next (next here)))
