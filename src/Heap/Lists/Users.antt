-- ===== src/Heap/Lists/Users.antt =====
-- `list_users` of server/list.c on the heap answers as it does on the list.
use ssdd_final.Base.{
  ℕ, zero, suc, ◌+◌, ◌≡◌, ◌<◌, refl, ap, if◌then◌else◌, Bool, true, false, some, List, [], ◌∷◌,
  length, arith, ◌==◌, Bool-cases, inl, inr,
}
use ssdd_final.CString.{Bytes, strcmp_eq, is_set}
use ssdd_final.Registry.Defs.{Node, ℤ, pos, done, ◌>>=◌, ◌>>◌}
use ssdd_final.Registry.Defs
use ssdd_final.Registry.Lists
use ssdd_final.Registry.Lists.{
  UserEntry, UserChain, cell, null, raw, UsersReply, FileEntry, FilesReply,
}
use ssdd_final.Registry.Invariant.{ready}
use ssdd_final.Registry.Refines.{entered}
use ssdd_final.Threads.{act}
use ssdd_final.Heap.{Ptr, Mem, Code, limit, get_messages}
use ssdd_final.Heap.Chain.{prejoin, first, length-Below}
use ssdd_final.Heap.Layout.{Placed, node_kind, erase, erase_node, Layout}
use ssdd_final.Heap.Lists.{read_user, link_user, fill_users, users_found, users_loop, reply}
use ssdd_final.Heap.Lists.Reads.{
  Reads, returns, Answers, answers, looks, Reads-then, Answers-then, is_node, Reads-node,
  Answers-node,
}

-- the three `strncpy` of a node
Reads-read_user :
    (m : Mem) (before next : List Placed) (p : Placed) (l : Layout m (prejoin before (p ∷ next)))
    → Reads m (read_user p.at) (Lists.entry_of (erase_node p))
unfolding read_user Lists.entry_of
Reads-read_user m before next p l =
    Reads-node m before next p l _ _
      (Reads-node m before next p l _ _ (Reads-node m before next p l _ _ (returns _)))

module _ (m : Mem) (room : ℕ → Bool) (all : (j : ℕ) → room j ≡ true) where
  Reads-link_user :
      (again : ℕ → Bool → Ptr → Code (UserChain × ℕ)) (i : ℕ) (before next : List Placed)
      (p q : Placed) (l : Layout m (prejoin before (p ∷ q ∷ next))) (entry : UserEntry)
      (y : UserChain × ℕ)
      → Reads m (again (i + 1) true q.at) y
      → Reads m (link_user again room i true p.at entry) (cell entry y.0, y.1 + 1)
  unfolding link_user
  Reads-link_user again i before next p q l entry y h = Reads-node m before (q ∷ next) p l _ _ (
      Reads-node m before (q ∷ next) p l _ _
        (rw (is_node m (p ∷ before) next q l, all i) (Reads-then _ h (returns _))))

  Reads-last_user :
      (n i : ℕ) (before : List Placed) (p : Placed) (l : Layout m (prejoin before (p ∷ [])))
      (entry : UserEntry)
      → Reads m (link_user (fill_users (suc n) room) room i true p.at entry) (cell entry null, 1)
  unfolding link_user fill_users
  Reads-last_user n i before p l entry =
      Reads-node m before [] p l _ _ (Reads-node m before [] p l _ _ (returns _))

  Reads-fill_users :
      (n i : ℕ) (before next : List Placed)
      → length next < n
      → Layout m (prejoin before next)
      → (x : UserChain × ℕ) × Reads m (fill_users n room i true (first node_kind next)) x
        × (Lists.fill_users room i true (erase next) ≡ some x)
  unfolding fill_users Lists.fill_users Lists.fill_cell
  Reads-fill_users zero i before next h l = absurd (omega (arith, h))
  Reads-fill_users (suc n) i before [] h l = ((raw, 0), returns _, refl)
  Reads-fill_users (suc zero) i before (p ∷ []) h l = absurd (omega (arith, h))
  Reads-fill_users (suc (suc n)) i before (p ∷ []) h l =
      let off : (p.at == 0) ≡ false = is_node m before [] p l in
      elim (Bool-cases (is_set p.ip)) [
        | inl on ↦
            let x : UserChain × ℕ = (cell (Lists.entry_of (erase_node p)) null, 1) in
            let run : Reads m (fill_users (suc (suc n)) room i true p.at) x = rw off (
              Reads-node m before [] p l _ x (
                rw on (
                  Reads-then (link_user (fill_users (suc n) room) room i true p.at)
                    (Reads-read_user m before [] p l) (Reads-last_user n i before p l _)))) in
            (x, run, rw on)
        | inr offline ↦
            let run : Reads m (fill_users (suc (suc n)) room i true p.at) (raw, 0) = rw off (
              Reads-node m before [] p l _ _
                (rw offline (Reads-node m before [] p l _ _ (returns _)))) in
            ((raw, 0), run, rw offline)
      ]
  Reads-fill_users (suc n) i before (p ∷ q ∷ next) h l =
      let off : (p.at == 0) ≡ false = is_node m before (q ∷ next) p l in
      elim (Bool-cases (is_set p.ip)) [
        | inl on ↦
            let (y, r, e) =
              Reads-fill_users n (i + 1) (p ∷ before) (q ∷ next) (omega (arith, h)) l in
            let x : UserChain × ℕ = (cell (Lists.entry_of (erase_node p)) y.0, y.1 + 1) in
            let run : Reads m (fill_users (suc n) room i true p.at) x = rw off (
              Reads-node m before (q ∷ next) p l _ x (
                rw on (
                  Reads-then (link_user (fill_users n room) room i true p.at)
                    (Reads-read_user m before (q ∷ next) p l)
                    (Reads-link_user (fill_users n room) i before next p q l _ y r)))) in
            (x, run, rw (on, all i, e))
        | inr offline ↦
            let (x, r, e) = Reads-fill_users n i (p ∷ before) (q ∷ next) (omega (arith, h)) l in
            let run : Reads m (fill_users (suc n) room i true p.at) x = rw off (
              Reads-node m before (q ∷ next) p l _ x
                (rw offline (Reads-node m before (q ∷ next) p l _ x r))) in
            (x, run, rw (offline, e))
      ]

  -- `list_users` from its walk on
  Answers-users_found :
      (before next : List Placed) (p : Placed)
      → Layout m (prejoin before (p ∷ next))
      → (us : List Node)
      → (r : UsersReply) × Answers m (users_found room true p.at) r
        × ((if is_set p.ip
                then (do
                  filled ←
                      Lists.or_fault
                        (Lists.fill_users room 0 true (erase (prejoin before (p ∷ next))))
                  Defs.unlock
                  Defs.pure (UsersReply.listed filled.0 filled.1))
                else (do Defs.unlock; Defs.pure (UsersReply.failed (pos 2))))
              (entered us)
            ≡ done r (ready us))
  unfolding users_found reply Lists.or_fault Defs.unlock get_messages limit
  Answers-users_found before next p l us = elim (Bool-cases (is_set p.ip)) [
    | inl on ↦
        let ps = prejoin before (p ∷ next) in
        let (x, r, e) =
          Reads-fill_users m.fresh 0 [] ps (length-Below node_kind m.fresh ps l.room l.below) l in
        let run : Answers m (users_found room true p.at) (UsersReply.listed x.0 x.1) =
          Answers-node m before next p l _ _ (
            rw on (
              looks (first node_kind ps) (ap (λ q. some (q, m)) l.head)
                (looks m.fresh refl (Answers-then _ r (answers _))))) in
        (_, run, rw (on, e))
    | inr off ↦
        let run : Answers m (users_found room true p.at) (UsersReply.failed (pos 2)) =
          Answers-node m before next p l _ _ (rw off (answers _)) in
        (_, run, rw off)
  ]

  Answers-users_loop :
      (name : Bytes) (n : ℕ) (before next : List Placed) (us : List Node)
      → length next < n
      → Layout m (prejoin before next)
      → (r : UsersReply) × Answers m (users_loop n room true name (first node_kind next)) r
        × (Lists.users_loop room true name (erase (prejoin before next)) (erase next) (entered us)
            ≡ done r (ready us))
  unfolding users_loop Lists.users_loop reply Defs.unlock
  Answers-users_loop name zero before next us h l = absurd (omega (arith, h))
  Answers-users_loop name (suc n) before [] us h l = (UsersReply.failed (pos 1), answers _, refl)
  Answers-users_loop name (suc n) before (p ∷ next) us h l =
      let off : (p.at == 0) ≡ false = is_node m before next p l in
      elim (Bool-cases (strcmp_eq p.username name)) [
        | inl hit ↦
            let (r, a, e) = Answers-users_found before next p l us in
            let run : Answers m (users_loop (suc n) room true name p.at) r =
              rw off (Answers-node m before next p l _ _ (rw hit a)) in
            (r, run, rw (hit, e))
        | inr miss ↦
            let (r, a, e) = Answers-users_loop name n (p ∷ before) next us (omega (arith, h)) l in
            let run : Answers m (users_loop (suc n) room true name p.at) r = rw off (
              Answers-node m before next p l _ _
                (rw miss (Answers-node m before next p l _ _ a))) in
            (r, run, rw (miss, e))
      ]

  -- behind the lock
  pub Answers-list_users :
      (name : Bytes) (ps : List Placed)
      → Layout m ps
      → (r : UsersReply) × Answers m
          (act get_messages λ current. act limit λ n. users_loop n room true name current)
          r
        × (Lists.list_users room true name (ready (erase ps)) ≡ done r (ready (erase ps)))
  unfolding get_messages limit Lists.list_users Defs.lock Defs.get_messages
  Answers-list_users name ps l =
      let (r, a, e) =
        Answers-users_loop name m.fresh [] ps (erase ps)
          (length-Below node_kind m.fresh ps l.room l.below) l in
      (r, looks (first node_kind ps) (ap (λ q. some (q, m)) l.head) (looks m.fresh refl a), e)
