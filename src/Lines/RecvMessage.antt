-- ===== src/Lines/RecvMessage.antt =====
-- `recvMessage` of server/lines.c: complete where the peer sends enough, endless where it does not.
use ssdd_final.Base.{
  ℕ, zero, suc, ◌+◌, ◌-◌, ◌<◌, ◌≡◌, refl, true, false, some, List, [], ◌∷◌, ◌++◌, map, arith, ltb,
  length, min, length-append,
}
use ssdd_final.CString.{Bytes}
use ssdd_final.Lines.{out_of_fuel, recv_loop, recv_message}

-- the bytes of all pieces
unfoldable pub joined : List Bytes → Bytes
joined [] = []
joined (p ∷ ps) = p ++ joined ps

recv_loop-eof : (fuel l : ℕ) (got : Bytes) → 0 < l → recv_loop fuel [] l got ≡ out_of_fuel
unfolding recv_message
recv_loop-eof zero l got h = refl
recv_loop-eof (suc fuel) l got h =
    let more : ltb 0 l ≡ true = ground arith in rw more (recv_loop-eof fuel l got h)

recv_loop-short :
    (fuel : ℕ) (ps : List Bytes) (l : ℕ) (got : Bytes)
    → length (joined ps) < l
    → recv_loop fuel (map some ps) l got ≡ out_of_fuel
unfolding recv_message joined
recv_loop-short zero ps l got h = refl
recv_loop-short (suc fuel) [] l got h = recv_loop-eof (suc fuel) l got h
recv_loop-short (suc fuel) (p ∷ ps) l got h =
    let few : length p + length (joined ps) < l = omega (arith, length-append p (joined ps)) in
    let all : min l (length p) ≡ length p = omega arith in
    let used : ltb (length p) (length p) ≡ false = ground arith in
    let more : ltb 0 (l - length p) ≡ true = ground arith in
    rw (all, used, more) (recv_loop-short fuel ps (l - length p) _ (omega arith))

-- Where the peer closes the connection before `len` bytes have come, `recvMessage` never returns:
-- `read` goes on giving 0, and the loop takes that for progress.
pub recv_message_endless :
    (fuel : ℕ) (ps : List Bytes) (len : ℕ)
    → length (joined ps) < len
    → recv_message fuel (map some ps) len ≡ out_of_fuel
unfolding recv_message
recv_message_endless fuel ps len h = recv_loop-short fuel ps len [] h
