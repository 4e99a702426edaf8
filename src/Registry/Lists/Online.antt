-- ===== src/Registry/Lists/Online.antt =====
-- What `list_users` answers: the users that have an address, each once, as the directory has them.
use ssdd_final.Base.{
  ℕ, ◌+◌, ◌≤◌, ◌≡◌, refl, ap, Bool, true, false, Option, none, some, List, [], ◌∷◌, arith, length,
  if◌then◌else◌, inl, inr, Bool-cases, Option-cases, All,
}
use ssdd_final.CString.{Bytes, strcmp_eq, strcmp_eq_iff, strncpy_self, is_set}
use ssdd_final.Directory.{Account, Directory}
use ssdd_final.Registry.Defs.{Node, Store, pos, Run, done, fault, pure, ◌>>=◌, ◌>>◌, unlock}
use ssdd_final.Registry.Lists.{
  UserEntry, UserChain, null, cell, raw, entry_of, fill_cell, fill_users, or_fault, UsersReply,
  users_loop, list_users,
}
use ssdd_final.Registry.Search.{find_user}
use ssdd_final.Registry.Invariant.{IsTidyNode, IsTidy, IsValid, restore, account, view}

-- the entries of the users with an address, in the order of the list
unfoldable pub online : List Node → List UserEntry
unfolding entry_of
online [] = []
online (u ∷ us) = if is_set u.ip then entry_of u ∷ online us else online us

-- The chain begins with these entries, each in a node that has been filled.
abbrev pub Holds : UserChain → List UserEntry → Type 0
Holds c [] = Unit
Holds (cell e c) (x ∷ xs) = (e ≡ x) × Holds c xs
Holds null (x ∷ xs) = ⊥
Holds raw (x ∷ xs) = ⊥

-- Where every `malloc` succeeds, nothing is written through NULL.
fill_users-online :
    (room : ℕ → Bool) (i : ℕ) (us : List Node)
    → ((j : ℕ) → room j ≡ true)
    → (chain : UserChain) × (fill_users room i true us ≡ some (chain, length (online us)))
      × Holds chain (online us)
unfolding list_users online
fill_users-online room i [] all = (raw, refl, tt)
fill_users-online room i (u ∷ []) all = elim (Bool-cases (is_set u.ip)) [
  | inl on ↦ rw on (cell (entry_of u) null, refl, (refl, tt))
  | inr off ↦ rw off (raw, refl, tt)
]
fill_users-online room i (u ∷ w ∷ us) all = elim (Bool-cases (is_set u.ip)) [
  | inl on ↦
      let (chain, e, holds) = fill_users-online room (i + 1) (w ∷ us) all in
      rw (on, all i)
        (
          cell (entry_of u) chain,
          rw (e, fill_cell) (ap (λ (n : ℕ). some (cell (entry_of u) chain, n)) (omega arith)),
          (refl, holds),
        )
  | inr off ↦ rw off (fill_users-online room i (w ∷ us) all)
]

-- the first entry with the name
unfoldable pub find_entry : Bytes → List UserEntry → Option UserEntry
find_entry name [] = none
find_entry name (e ∷ es) = if strcmp_eq e.username name then some e else find_entry name es

-- how often a name stands among the entries
unfoldable pub count_entry : Bytes → List UserEntry → ℕ
count_entry name [] = 0
count_entry name (e ∷ es) = (if strcmp_eq e.username name then 1 else 0) + count_entry name es

-- what the directory says of a user who may be online
abbrev pub online_entry : Bytes → Option Account → Option UserEntry
online_entry name none = none
online_entry name (some a) =
    if is_set a.ip then some (record { username = name; ip = a.ip; port = a.port }) else none

find_entry-none :
    (name : Bytes) (us : List Node)
    → All IsTidyNode us
    → find_user name us ≡ none
    → find_entry name (online us) ≡ none
unfolding find_user find_entry online
find_entry-none name [] t h = refl
find_entry-none name (u ∷ us) t h =
    ground (arith, strncpy_self u.username t.0.username_fits, find_entry-none name us t.1)

pub find_entry-online :
    (name : Bytes) (us : List Node)
    → IsTidy us
    → find_entry name (online us) ≡ online_entry name (view us name)
unfolding find_user find_entry online
find_entry-online name [] t = refl
find_entry-online name (u ∷ us) t =
    let p = t.nodes.0 in
    elim (Bool-cases (strcmp_eq u.username name)) [
      | inl hit ↦
          let e = (strcmp_eq_iff u.username name).0 hit in
          elim (Bool-cases (is_set u.ip)) [
            | inl on ↦ rw (
              on,
              strncpy_self u.username p.username_fits,
              hit,
              on,
              strncpy_self u.ip p.ip_fits,
              strncpy_self u.port p.port_fits,
              e,
            )
            | inr off ↦
                rw (off, hit, off) (rw e at (find_entry-none u.username us t.nodes.1 t.distinct.0))
          ]
      | inr miss ↦ elim (Bool-cases (is_set u.ip)) [
        | inl on ↦
            rw (on, strncpy_self u.username p.username_fits, miss)
              (find_entry-online name us (record { nodes = t.nodes.1; distinct = t.distinct.1 }))
        | inr off ↦
            rw (off, miss)
              (find_entry-online name us (record { nodes = t.nodes.1; distinct = t.distinct.1 }))
      ]
    ]

count_entry-none :
    (name : Bytes) (us : List Node)
    → All IsTidyNode us
    → find_user name us ≡ none
    → count_entry name (online us) ≡ 0
unfolding find_user count_entry online
count_entry-none name [] t h = refl
count_entry-none name (u ∷ us) t h =
    ground (arith, strncpy_self u.username t.0.username_fits, count_entry-none name us t.1)

count_entry-online : (name : Bytes) (us : List Node) → IsTidy us → count_entry name (online us) ≤ 1
unfolding find_user count_entry online
count_entry-online name [] t = omega arith
count_entry-online name (u ∷ us) t = ground (
  arith,
  strcmp_eq_iff u.username name,
  strncpy_self u.username t.nodes.0.username_fits,
  count_entry-online name us (record { nodes = t.nodes.1; distinct = t.distinct.1 }),
  count_entry-none u.username us t.nodes.1 t.distinct.0,
  count_entry-none name us t.nodes.1,
)

-- What `list_users` may answer in store `s` with directory `d`, on each of its branches. The store
-- is left as it was.
pub data UsersAnswer (s : Store) (d : Directory) (name : Bytes) : Run UsersReply → Type 0 where
  unknown : d name ≡ none → UsersAnswer s d name (done (UsersReply.failed (pos 1)) s)
  offline :
      {a : Account}
      → d name ≡ some a
      → is_set a.ip ≡ false
      → UsersAnswer s d name (done (UsersReply.failed (pos 2)) s)
  answered :
      {a : Account} {chain : UserChain} {n : ℕ} (entries : List UserEntry)
      → d name ≡ some a
      → is_set a.ip ≡ true
      → Holds chain entries
      → n ≡ length entries
      → ((k : Bytes) → find_entry k entries ≡ online_entry k (d k))
      → ((k : Bytes) → count_entry k entries ≤ 1)
      → UsersAnswer s d name (done (UsersReply.listed chain n) s)

module _ (room : ℕ → Bool) (first : Bool) (name : Bytes) (all : List Node) where
  users_loop-none :
      (us : List Node) (t : Store)
      → find_user name us ≡ none
      → users_loop room first name all us t ≡ users_loop room first name all [] t
  unfolding list_users find_user
  users_loop-none [] t h = refl
  users_loop-none (u ∷ us) t h = elim (Bool-cases (strcmp_eq u.username name)) [
    | inl hit ↦ absurd (ground (arith, hit, h))
    | inr miss ↦ rw miss (users_loop-none us t (rw miss at h))
  ]

  users_loop-off :
      (us : List Node) (u : Node) (t : Store)
      → find_user name us ≡ some u
      → is_set u.ip ≡ false
      → users_loop room first name all us t ≡ (unlock >> pure (UsersReply.failed (pos 2))) t
  unfolding list_users find_user
  users_loop-off [] u t h off = cc
  users_loop-off (w ∷ us) u t h off = elim (Bool-cases (strcmp_eq w.username name)) [
    | inl hit ↦ let same : w ≡ u = ground (arith, hit, h) in rw (hit, same, off)
    | inr miss ↦ rw miss (users_loop-off us u t (rw miss at h) off)
  ]

  users_loop-on :
      (us : List Node) (u : Node) (t : Store)
      → find_user name us ≡ some u
      → is_set u.ip ≡ true
      → users_loop room first name all us t
        ≡ (do
          filled ← or_fault (fill_users room 0 first all)
          unlock
          pure (UsersReply.listed filled.0 filled.1))
            t
  unfolding list_users find_user
  users_loop-on [] u t h on = cc
  users_loop-on (w ∷ us) u t h on = elim (Bool-cases (strcmp_eq w.username name)) [
    | inl hit ↦ let same : w ≡ u = ground (arith, hit, h) in rw (hit, same, on)
    | inr miss ↦ rw miss (users_loop-on us u t (rw miss at h) on)
  ]

-- From a valid store, and where every `malloc` gives a node, `list_users` answers code 1 to a name
-- that is not registered and code 2 to a user that is offline. To a user that is online it answers
-- a chain of filled nodes: for every name the entry that the directory has for it if it is online,
-- none if not, and no name twice; the number is that of the entries. The store stays as it was.
pub list_users-UsersAnswer :
    {s : Store}
    → IsValid s
    → (room : ℕ → Bool) (name : Bytes) → ((i : ℕ) → room i ≡ true)
    → UsersAnswer s (view s.messages) name (list_users room true name s)
unfolding list_users
list_users-UsersAnswer {s} v room name all =
    rw v.free (elim (Option-cases (find_user name s.messages)) [
      | inl h ↦
          rw (users_loop-none room true name s.messages s.messages _ h, restore s v.free)
            (unknown (rw h))
      | inr (u, h) ↦ elim (Bool-cases (is_set u.ip)) [
        | inr off ↦
            rw (users_loop-off room true name s.messages s.messages u _ h off, restore s v.free)
              (offline {a = account u} (rw h) off)
        | inl on ↦
            let (chain, e, holds) = fill_users-online room 0 s.messages all in
            rw (users_loop-on room true name s.messages s.messages u _ h on, e, restore s v.free)
              (answered {a = account u} (online s.messages) (rw h) on holds refl
                (λ k. find_entry-online k s.messages v.tidy)
                (λ k. count_entry-online k s.messages v.tidy))
      ]
    ])

-- with no node to begin with, the first user online is written through NULL
fill_users-fault :
    (room : ℕ → Bool) (i : ℕ) (name : Bytes) (us : List Node) (u : Node)
    → find_user name us ≡ some u
    → is_set u.ip ≡ true
    → fill_users room i false us ≡ none
unfolding list_users find_user
fill_users-fault room i name [] u h on = cc
fill_users-fault room i name (w ∷ us) u h on = ground (arith, fill_users-fault room i name us u)

-- Where the caller's `malloc` has failed, the request of a user that is online makes `list_users`
-- write through a null pointer.
pub list_users-fault :
    {s : Store}
    → IsValid s
    → (room : ℕ → Bool) (name : Bytes) (u : Node) → find_user name s.messages ≡ some u
    → is_set u.ip ≡ true
    → list_users room false name s ≡ fault
unfolding list_users
list_users-fault {s} v room name u h on = rw (
  v.free,
  users_loop-on room false name s.messages s.messages u _ h on,
  fill_users-fault room 0 name s.messages u h on,
)
