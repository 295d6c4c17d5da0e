-- ===== src/Acl/Reload.antt =====
-- Who stays and which list a client gets when `mosquitto_security_apply_default` of
-- src/security_default.c of mosquitto-1.4.2 runs behind `_acl_cleanup`, as the broker does when it
-- has read its files again.
use wirenboard.Common.{
  ℕ, ◌≡◌, ◌≢◌, ◌⊎◌, refl, arith, Bool, true, false, not, ◌&&◌, ◌||◌, ◌==◌, Option, none, some, List,
  [], ◌∷◌, Bytes, str_eq-eq, str_eq_refl, map, All, Bool-cases, inl, inr, ap, subst, All-mono,
}
use wirenboard.Acl.{AclUser, AclDb, Session, same_user, acl_cleanup, apply_acl}
use wirenboard.Acl.Passwords.{
  Unpwd, Login, Clients, Applied, stays, drops, disconnected, is_absent, is_bridge, unpwd_check,
  disconnect, context_disconnect, apply_login, apply_loop, security_apply,
}
use wirenboard.Acl.LetIn.{IsFirst, IsLetIn, passes, passes-IsLetIn, IsLetIn-passes}

-- The list that belongs to a name: the first one with the name, if there is one.
abbrev pub ListOf : List AclUser → Option Bytes → Option AclUser → Type 0
ListOf us name none = All (λ v. v.username ≢ name) us
ListOf us name (some u) = IsFirst (λ v. v.username) name us u

same_user-eq : (a b : Option Bytes) → same_user a b ≡ true → a ≡ b
unfolding same_user
same_user-eq none none h = refl
same_user-eq (some a) (some b) h = ap some (str_eq-eq a b h)
same_user-eq _ _ h = absurd cc

same_user_refl : (a : Option Bytes) → same_user a a ≡ true
unfolding same_user
same_user_refl none = refl
same_user_refl (some a) = str_eq_refl a

ListOf-cons :
    (v : AclUser) (vs : List AclUser) (name : Option Bytes) (l : Option AclUser)
    → v.username ≢ name
    → ListOf vs name l
    → ListOf (v ∷ vs) name l
ListOf-cons v vs name none other h = (other, h)
ListOf-cons v vs name (some u) other h = inr (other, h)

-- A client without a list gets the one that belongs to its name; the rest of it stays.
apply_acl-ListOf :
    (us : List AclUser) (s : Session)
    → s.acl_list ≡ none
    → (apply_acl us s ≡ record s { acl_list = (apply_acl us s).acl_list })
      × ListOf us s.username (apply_acl us s).acl_list
unfolding apply_acl
apply_acl-ListOf [] s h = (refl, rw h tt)
apply_acl-ListOf (v ∷ vs) s h = elim (Bool-cases (same_user v.username s.username)) [
  | inl e ↦ rw e (refl, inl (same_user-eq v.username s.username e, refl))
  | inr e ↦
      (let other : v.username ≢ s.username =
          λ same. absurd (ground (arith, e, same, same_user_refl s.username)) in
        let (same, list) = apply_acl-ListOf vs s h in
        rw e (same, ListOf-cons v vs s.username (apply_acl vs s).acl_list other list))
]

Applied-cases : (a : Applied) → ((c : Login) × (a ≡ stays c)) ⊎ ((c : Login) × (a ≡ drops c))
Applied-cases (stays c) = inl (c, refl)
Applied-cases (drops c) = inr (c, refl)

-- `c'` is the client `c` behind the reload that closed it.
abbrev pub IsClosed : (now : ℕ) → Login → Login → Type 0
IsClosed now c c' =
    (c'.state ≡ disconnected)
    × (c'.has_socket ≡ false)
    × (c'.has_will ≡ false)
    × (c'.disconnect_t ≡ now)
    × (c'.session.username ≡ c.session.username)

-- The broker keeps a closed client: it has a durable session, or is a bridge.
abbrev pub is_kept : Login → Bool
is_kept c = not c.clean_session || is_bridge c.session.bridge

module _ (digest : (password : Bytes) → (salt : Bytes) → Option Bytes) (now : ℕ)
    (allow_anonymous : Bool) (unpwd : List Unpwd) (db : AclDb) where
  -- What becomes of one client
  abbrev pub Outcome : Login → Applied → Type 0
  Outcome c (stays c') =
      (IsLetIn digest allow_anonymous unpwd c
        × (c' ≡ record c { session = record c.session { acl_list = c'.session.acl_list } })
        × ListOf db.acl_list c.session.username c'.session.acl_list)
      ⊎ (¬ (IsLetIn digest allow_anonymous unpwd c)
          × (is_kept c ≡ true)
          × IsClosed now c c'
          × (c'.session ≡ c.session))
  Outcome c (drops c') =
      ¬ (IsLetIn digest allow_anonymous unpwd c)
      × (is_kept c ≡ false)
      × IsClosed now c c'
      × (c'.session ≡ record c.session { id = none })

  -- The clients known by their ids before and behind the reload, and those for freeing
  abbrev pub Reloaded : List Login → (for_free : List Login) → Clients → Type 0
  Reloaded [] for_free r = (r.by_id ≡ []) × (r.for_free ≡ for_free)
  Reloaded (c ∷ cs) for_free r =
      ((c' : Login) × (rest : List Login) × (r.by_id ≡ c' ∷ rest)
        × Outcome c (stays c')
        × Reloaded cs for_free (record r { by_id = rest }))
      ⊎ ((c' : Login) × Outcome c (drops c') × Reloaded cs (c' ∷ for_free) r)

  disconnect-Outcome :
      (c : Login) → ¬ (IsLetIn digest allow_anonymous unpwd c) → Outcome c (disconnect now c)
  unfolding disconnect context_disconnect
  disconnect-Outcome c refused =
      elim (Bool-cases (c.clean_session && not (is_bridge c.session.bridge))) [
        | inl drop ↦ rw drop (refused, ground arith, (refl, refl, refl, refl, refl), refl)
        | inr keep ↦ rw keep (inr (refused, ground arith, (refl, refl, refl, refl, refl), refl))
      ]

  apply_login-Outcome :
      (c : Login)
      → c.session.acl_list ≡ none
      → Outcome c (apply_login digest now allow_anonymous unpwd db c)
  unfolding apply_login passes
  apply_login-Outcome c h = elim (Bool-cases (passes digest allow_anonymous unpwd c)) [
    | inl yes_passes ↦
        (let first : (not allow_anonymous && is_absent c.session.username) ≡ false = ground arith in
          let second : (unpwd_check digest unpwd c.session.username c.password == 0) ≡ true =
            ground arith in
          let (same, list) = apply_acl-ListOf db.acl_list c.session h in
          rw (first, second)
            (inl (
              passes-IsLetIn digest allow_anonymous unpwd c yes_passes,
              ap (λ s. record c { session = s }) same,
              list,
            )))
    | inr fails ↦
        (let refused : ¬ (IsLetIn digest allow_anonymous unpwd c) = λ in_.
            absurd (ground (arith, fails, IsLetIn-passes digest allow_anonymous unpwd c in_)) in
          let out = disconnect-Outcome c refused in
          elim (Bool-cases (not allow_anonymous && is_absent c.session.username)) [
            | inl anonymous ↦ rw anonymous out
            | inr named ↦
                (let second : (unpwd_check digest unpwd c.session.username c.password == 0)
                      ≡ false =
                    ground arith in
                  rw (named, second) out)
          ])
  ]

  apply_loop-Reloaded :
      (cs for_free : List Login)
      → All (λ s. s.acl_list ≡ none) (map (λ c. c.session) cs)
      → Reloaded cs for_free (apply_loop digest now allow_anonymous unpwd db cs for_free)
  unfolding apply_loop
  apply_loop-Reloaded [] for_free h = (refl, refl)
  apply_loop-Reloaded (c ∷ cs) for_free h =
      let out = apply_login-Outcome c h.0 in
      elim (Applied-cases (apply_login digest now allow_anonymous unpwd db c)) [
        | inl (c', e) ↦
            (let r = apply_loop digest now allow_anonymous unpwd db cs for_free in
              rw (apply_loop, e)
                (inl (
                  c',
                  r.by_id,
                  refl,
                  subst (Outcome c) e out,
                  apply_loop-Reloaded cs for_free h.1,
                )))
        | inr (c', e) ↦
            rw (apply_loop, e)
              (inr (c', subst (Outcome c) e out, apply_loop-Reloaded cs (c' ∷ for_free) h.1))
      ]

-- Only where there are lists a client points to one.
abbrev pub PointsIn : List AclUser → Session → Type 0
PointsIn us s = (us ≢ []) ⊎ (s.acl_list ≡ none)

without_list :
    (ss : List Session)
    → All (λ s. s.acl_list ≡ none) (map (λ (c : Session). record c { acl_list = none }) ss)
without_list [] = tt
without_list (s ∷ ss) = (refl, without_list ss)

acl_cleanup-none :
    (old : AclDb) (ss : List Session)
    → All (PointsIn old.acl_list) ss
    → All (λ s. s.acl_list ≡ none) (acl_cleanup old ss).1
unfolding acl_cleanup
acl_cleanup-none old ss h = go old.acl_list refl
  where
    go :
        (us : List AclUser)
        → old.acl_list ≡ us
        → All (λ s. s.acl_list ≡ none) (acl_cleanup old ss).1
    go [] e =
        rw (acl_cleanup, e)
          (All-mono (PointsIn old.acl_list) (λ s. s.acl_list ≡ none) ss
            (λ s. elim [ inl some_list ↦ absurd (some_list e) | inr points ↦ points ]) h)
    go (u ∷ us) e = rw (acl_cleanup, e) (without_list ss)

-- A reload behind `_acl_cleanup`, where a client points to a list only if the old database has one.
-- Each client known by its id, in the order of the clients: where the new settings and users let it
-- in, by the first entry with its name, it stays known and as it was, but for its list, which is the
-- first new one for its name, or none; where they do not, it is disconnected, and it is known no
-- longer, but on the stack for freeing, if its session is clean and it is no bridge.
pub security_apply-Reloaded :
    (digest : Bytes → Bytes → Option Bytes) (now : ℕ) (allow_anonymous : Bool) (unpwd : List Unpwd)
    (old new : AclDb) (ss : List Session) (clients : Clients)
    → All (PointsIn old.acl_list) ss
    → map (λ c. c.session) clients.by_id ≡ (acl_cleanup old ss).1
    → Reloaded digest now allow_anonymous unpwd new clients.by_id clients.for_free
        (security_apply digest now allow_anonymous unpwd new clients)
unfolding security_apply
security_apply-Reloaded digest now allow_anonymous unpwd old new ss clients h e =
    apply_loop-Reloaded digest now allow_anonymous unpwd new clients.by_id clients.for_free
      (rw e (acl_cleanup-none old ss h))
