-- ===== src/Registry/Users/Refine.antt =====
-- The four operations on users implement those of the directory.
use ssdd_final.Base.{
  ◌≡◌, refl, Bool, true, false, Option, none, some, List, [], ◌∷◌, arith, inl, inr, Bool-cases,
  Option-cases, fun_ext,
}
use ssdd_final.CString.{Bytes, strcmp_eq, strncpy_self, is_set, IsTerminated}
use ssdd_final.Directory.{empty_account, put, register, unregister, connect, disconnect}
use ssdd_final.Registry.Defs.{
  Node, Store, pos, negsuc, pure, ◌>>◌, unlock, get_messages, set_messages,
}
use ssdd_final.Registry.Users.{
  register_loop, register_user, connect_found, unregister_user, connect_user, disconnect_user,
}
use ssdd_final.Registry.FileSearch.{find_file}
use ssdd_final.Registry.Search.{Found, find_user, username-find_user}
use ssdd_final.Registry.Invariant.{IsTidyNode, IsTidy, IsValid, view, All-find_user}
use ssdd_final.Registry.Refines.{
  Refines, entered, enter, Refines-unlock, Refines-replace, Refines-remove, walk-Refines,
}

-- What `getpeername` and `inet_ntoa` give: a text that is not empty and fits its field.
abbrev pub IsAddress : Option Bytes → Type 0
IsAddress none = Unit
IsAddress (some addr) = (is_set addr ≡ true) × IsTerminated addr

abbrev fresh_node : Bytes → Node
fresh_node name = record { username = name; ip = []; port = []; list_files = [] }

fresh_node-IsTidyNode : (name : Bytes) → IsTerminated name → IsTidyNode (fresh_node name)
fresh_node-IsTidyNode name fits = record {
  username_fits = fits;
  ip_fits = omega arith;
  port_fits = omega arith;
  offline = λ e. refl;
  files_fit = tt;
  files_distinct = tt;
}

module _ {s : Store} (v : IsValid s) where
  tidy_found : (name : Bytes) (u : Node) → find_user name s.messages ≡ some u → IsTidyNode u
  tidy_found name u h = All-find_user IsTidyNode name s.messages u v.tidy.nodes h

  -- From a valid store, `unregister_user` returns the code of the directory's `unregister`, leaves
  -- the directory that it leaves, and ends in a valid store with the mutex free.
  pub unregister_user-Refines :
      (name : Bytes) → Refines (unregister_user name s) (unregister name (view s.messages))
  unfolding unregister_user unregister
  unregister_user-Refines name =
      walk-Refines name _ (unregister name) v (λ e. rw (e, unregister))
        λ u h f. rw (h, unregister) (Refines-remove v.tidy h f (pos 0))

  -- From a valid store, `disconnect_user` returns the code of the directory's `disconnect`, leaves
  -- the directory that it leaves, and ends in a valid store with the mutex free.
  pub disconnect_user-Refines :
      (name : Bytes) → Refines (disconnect_user name s) (disconnect name (view s.messages))
  unfolding disconnect_user disconnect
  disconnect_user-Refines name =
      walk-Refines name _ (disconnect name) v (λ e. rw (e, disconnect))
        λ u h f.
          rw (h, disconnect)
            (elim (Bool-cases (is_set u.ip)) [
              | inl on ↦
                  let p = tidy_found name u h in
                  rw on (
                    Refines-replace v.tidy h f (pos 0) (record u { ip = []; port = [] })
                      (username-find_user name s.messages u h)
                      (record {
                        username_fits = p.username_fits;
                        ip_fits = omega arith;
                        port_fits = omega arith;
                        offline = λ e. refl;
                        files_fit = p.files_fit;
                        files_distinct = p.files_distinct;
                      }))
              | inr off ↦ rw off (Refines-unlock v.tidy (pos 2))
            ])

  address-IsTidyNode :
      (u : Node) (addr port : Bytes)
      → IsTidyNode u
      → is_set addr ≡ true
      → IsTerminated addr
      → IsTerminated port
      → IsTidyNode (record u { ip = addr; port = port })
  unfolding is_set
  address-IsTidyNode u [] port p set fits port_fits = cc
  address-IsTidyNode u (c ∷ addr) port p set fits port_fits = record {
    username_fits = p.username_fits;
    ip_fits = fits;
    port_fits = port_fits;
    offline = λ e. cc;
    files_fit = p.files_fit;
    files_distinct = p.files_distinct;
  }

  connect_offline :
      (peer : Option Bytes) (port name : Bytes) (u : Node)
      → IsAddress peer
      → IsTerminated port
      → find_user name s.messages ≡ some u
      → is_set u.ip ≡ false
      → (f : Found name [] s.messages u)
      → Refines
          (connect_found peer port f.pre u f.post (entered s.messages))
          (connect peer port name (view s.messages))
  unfolding connect_user connect
  connect_offline none port name u ok fits h off f =
      rw (h, connect, off) (Refines-unlock v.tidy (pos 3))
  connect_offline (some addr) port name u ok fits h off f =
      rw (h, connect, off, strncpy_self addr ok.1, strncpy_self port fits)
        (Refines-replace v.tidy h f (pos 0) (record u { ip = addr; port = port })
          (username-find_user name s.messages u h)
          (address-IsTidyNode u addr port (tidy_found name u h) ok.0 ok.1 fits))

  -- From a valid store, with a port that fits its field and a peer address that is not empty and
  -- fits its field, if there is one, `connect_user` returns the code of the directory's `connect`,
  -- leaves the directory that it leaves, and ends in a valid store with the mutex free.
  pub connect_user-Refines :
      (peer : Option Bytes) (port name : Bytes)
      → IsAddress peer
      → IsTerminated port
      → Refines (connect_user peer port name s) (connect peer port name (view s.messages))
  unfolding connect_user connect
  connect_user-Refines peer port name ok fits =
      walk-Refines name _ (connect peer port name) v (λ e. rw (e, connect))
        λ u h f. elim (Bool-cases (is_set u.ip)) [
          | inl on ↦ rw (h, connect, on) (Refines-unlock v.tidy (pos 2))
          | inr off ↦ connect_offline peer port name u ok fits h off f
        ]

register_loop-some :
    (room : Bool) (name : Bytes) (us : List Node) (u : Node) (t : Store)
    → find_user name us ≡ some u
    → register_loop room name us t ≡ (unlock >> pure (pos 1)) t
unfolding register_user find_user
register_loop-some room name [] u t h = cc
register_loop-some room name (w ∷ us) u t h = elim (Bool-cases (strcmp_eq w.username name)) [
  | inl hit ↦ rw hit
  | inr miss ↦ rw miss (register_loop-some room name us u t (rw miss at h))
]

register_loop-none :
    (room : Bool) (name : Bytes) (us : List Node) (t : Store)
    → find_user name us ≡ none
    → register_loop room name us t ≡ register_loop room name [] t
unfolding register_user find_user
register_loop-none room name [] t h = refl
register_loop-none room name (w ∷ us) t h = elim (Bool-cases (strcmp_eq w.username name)) [
  | inl hit ↦ absurd (ground (arith, hit, h))
  | inr miss ↦ rw miss (register_loop-none room name us t (rw miss at h))
]

-- a node for a name that was missing, at the front
Refines-insert :
    {us : List Node} (t : IsTidy us) (name : Bytes)
    → IsTerminated name
    → find_user name us ≡ none
    → Refines
        (register_loop true name [] (entered us))
        (pos 0, put name (some empty_account) (view us))
unfolding register_user get_messages set_messages unlock find_user find_file
Refines-insert {us} t name fits h = record {
  after = fresh_node name ∷ us;
  runs = rw (strncpy_self name fits);
  tidy = record { nodes = (fresh_node-IsTidyNode name fits, t.nodes); distinct = (h, t.distinct) };
  same = fun_ext λ k. elim (Bool-cases (strcmp_eq name k)) [ inl e ↦ rw e | inr e ↦ rw e ];
}

register_empty :
    {us : List Node} (t : IsTidy us) (room : Bool) (name : Bytes)
    → IsTerminated name
    → find_user name us ≡ none
    → Refines (register_loop room name [] (entered us)) (register room name (view us))
unfolding register_user register
register_empty t true name fits h = rw (h, register) (Refines-insert t name fits h)
register_empty t false name fits h = rw (h, register) (Refines-unlock t (negsuc 0))

-- From a valid store, with a name that fits its field, `register_user` returns the code of the
-- directory's `register`, leaves the directory that it leaves, and ends in a valid store with the
-- mutex free, whether `malloc` succeeds or not.
pub register_user-Refines :
    {s : Store}
    → IsValid s
    → (room : Bool) (name : Bytes) → IsTerminated name
    → Refines (register_user room name s) (register room name (view s.messages))
unfolding register_user register
register_user-Refines {s} v room name fits =
    rw (enter (register_loop room name) v) (elim (Option-cases (find_user name s.messages)) [
      | inl h ↦
          rw (register_loop-none room name s.messages (entered s.messages) h)
            (register_empty v.tidy room name fits h)
      | inr (u, h) ↦
          rw (register_loop-some room name s.messages u (entered s.messages) h, h, register)
            (Refines-unlock v.tidy (pos 1))
    ])
