-- ===== src/Tests/Lines.antt =====
-- lines.c at short messages.
use ssdd_final.Base.{◌≡◌, refl, inr, some, [], ◌∷◌, ◌++◌, map, arith}
use ssdd_final.CString.{Bytes}
use ssdd_final.Rpc.{codes, print_1_svc, print_1_svc_ignores_file}
use ssdd_final.Lines.{
  byte, interrupted, broken, stored, read_line, out_of_fuel, recv_message, takes, reset, complete,
  send_message,
}
use ssdd_final.Lines.ReadLine.{here, next, again, read_line-Carries, Stores, read_line-Stores}
use ssdd_final.Lines.SendMessage.{send_message_split}
use ssdd_final.Lines.RecvMessage.{joined, recv_message_endless}

-- four bytes do not fit a buffer of four
read_line-Carries_example :
    read_line 4
      (byte b'a' ∷ interrupted ∷ byte b'b' ∷ byte b'c' ∷ byte b'd' ∷ byte 0 ∷ byte b'x' ∷ [])
    ≡ (stored (codes "abc"), byte b'x' ∷ [])
read_line-Carries_example =
    read_line-Carries 4 (codes "abcd") 0 _ (omega arith) (refl, (refl, (refl, (refl, tt))))
      (inr refl) (next (again (next (next (next here)))))

read_line-Stores_example : Stores 4 (read_line 4 (byte b'a' ∷ broken ∷ [])).0
read_line-Stores_example = read_line-Stores 4 (byte b'a' ∷ broken ∷ []) (omega arith)

recv_message_endless_example : recv_message 100 (map some (codes "ab" ∷ [])) 3 ≡ out_of_fuel
unfolding joined
recv_message_endless_example = recv_message_endless 100 (codes "ab" ∷ []) 3 (omega arith)

print_1_svc_ignores_file_example :
    print_1_svc (codes "ann") (codes "DELETE") (codes "now") (codes "f")
    ≡ print_1_svc (codes "ann") (codes "DELETE") (codes "now") (codes "g")
print_1_svc_ignores_file_example =
    print_1_svc_ignores_file (codes "ann") (codes "DELETE") (codes "now") (codes "f") (codes "g")
      (λ e. cc) (λ e. cc)

-- the first two bytes go out, and then the peer has reset the connection
send_message_split_example :
    (unsent : Bytes) × ((send_message (takes 2 ∷ reset ∷ []) (codes "abc")).1 ++ unsent
      ≡ codes "abc")
    × ((send_message (takes 2 ∷ reset ∷ []) (codes "abc")).0 ≡ complete → unsent ≡ [])
send_message_split_example = send_message_split (takes 2 ∷ reset ∷ []) (codes "abc")
