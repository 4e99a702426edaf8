-- ===== src/Registry/Refines.antt =====
-- A call of list.c against the directory: what it returns, what the directory is after it, and
-- that the store is valid again with the mutex free.
use ssdd_final.Base.{◌≡◌, refl, true, none, some, List, [], ◌∷◌, inl, inr, Bool-cases, Option-cases}
use ssdd_final.CString.{Bytes}
use ssdd_final.Directory.{Directory, put}
use ssdd_final.Registry.Defs.{
  Node, Store, ℤ, pos, Run, done, Op, pure, ◌>>=◌, ◌>>◌, lock, unlock, get_messages, set_messages,
  ensure_inited, rejoin, with_user,
}
use ssdd_final.Registry.Search.{
  find_user, replace_user, remove_user, Found, find_user-Found, with_user-none,
}
use ssdd_final.Registry.Invariant.{
  IsTidyNode, IsTidy, IsValid, ready, account, view, replace_user-IsTidy, remove_user-IsTidy,
  view-replace_user, view-remove_user,
}

pub record Refines (r : Run ℤ) (spec : ℤ × Directory) : Type 0 where
  pub after : List Node
  pub runs : r ≡ done spec.0 (ready after)
  pub tidy : IsTidy after
  pub same : view after ≡ spec.1

-- the state inside the critical section
abbrev pub entered : List Node → Store
entered us = record { messages = us; inited_list = true; locked = true }

-- With the mutex free, the common beginning of the operations ends inside the critical section.
pub enter :
    {A : Type 0} {s : Store} (k : List Node → Op A)
    → IsValid s
    → (do lock; ensure_inited; us ← get_messages; k us) s ≡ k s.messages (entered s.messages)
unfolding lock ensure_inited get_messages
enter {s} k v = elim (Bool-cases s.inited_list) [
  | inl old ↦ rw (v.free, old)
  | inr new ↦ rw (v.free, new, v.clean new)
]

module _ {us : List Node} (t : IsTidy us) where
  -- `unlock; return c;`
  pub Refines-unlock : (c : ℤ) → Refines ((unlock >> pure c) (entered us)) (c, view us)
  unfolding unlock
  Refines-unlock c = record { after = us; runs = refl; tidy = t; same = refl }

  module _ {name : Bytes} {u : Node} (h : find_user name us ≡ some u) (f : Found name [] us u) where
    -- the node found is written, then `unlock; return c;`
    pub Refines-replace :
        (c : ℤ) (x : Node)
        → x.username ≡ name
        → IsTidyNode x
        → Refines
            ((do set_messages (rejoin f.pre (x ∷ f.post)); unlock; pure c) (entered us))
            (c, put name (some (account x)) (view us))
    unfolding unlock set_messages rejoin
    Refines-replace c x e p = record {
      after = replace_user name x us;
      runs = rw f.replaced;
      tidy = replace_user-IsTidy name x us u e h t p;
      same = view-replace_user name x us u e h;
    }

    -- the node found is unlinked, then `unlock; return c;`
    pub Refines-remove :
        (c : ℤ)
        → Refines
            ((do set_messages (rejoin f.pre f.post); unlock; pure c) (entered us))
            (c, put name none (view us))
    unfolding unlock set_messages rejoin
    Refines-remove c = record {
      after = remove_user name us;
      runs = rw f.removed;
      tidy = remove_user-IsTidy name us t;
      same = view-remove_user name us t.distinct;
    }

-- An operation that walks to a user refines `spec`, if it does so where the user is missing and
-- where it is found.
pub walk-Refines :
    {s : Store} (name : Bytes) (found : List Node → Node → List Node → Op ℤ)
    (spec : Directory → ℤ × Directory)
    → IsValid s
    → (find_user name s.messages ≡ none → spec (view s.messages) ≡ (pos 1, view s.messages))
    → ((u : Node) (h : find_user name s.messages ≡ some u) (f : Found name [] s.messages u)
        → Refines (found f.pre u f.post (entered s.messages)) (spec (view s.messages)))
    → Refines
        ((do lock; ensure_inited; us ← get_messages; with_user name found [] us) s)
        (spec (view s.messages))
walk-Refines {s} name found spec v missing there =
    rw (enter (λ us. with_user name found [] us) v)
      (elim (Option-cases (find_user name s.messages)) [
        | inl h ↦
            rw (with_user-none name found [] s.messages h, missing h)
              (Refines-unlock v.tidy (pos 1))
        | inr (u, h) ↦ let f = find_user-Found name [] s.messages u h in rw f.runs (there u h f)
      ])
