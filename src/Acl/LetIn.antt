-- ===== src/Acl/LetIn.antt =====
-- Whom `mosquitto_unpwd_check_default` of src/security_default.c of mosquitto-1.4.2 lets in.
use wirenboard.Common.{
  ◌≡◌, ◌≢◌, ◌⊎◌, refl, arith, Bool, true, false, not, ◌&&◌, ◌==◌, Option, none, some, List, [], ◌∷◌,
  Bytes, str_eq, str_eq-eq, str_eq_refl, Bool-cases, Option-cases, inl, inr, ap, ◌∙◌,
}
use wirenboard.Acl.Passwords.{Unpwd, Login, is_absent, entry_check, unpwd_loop, unpwd_check}

-- `u` is the first of the list with the name `n`.
abbrev pub IsFirst : {A N : Type 0} → (A → N) → N → List A → A → Type 0
IsFirst name n [] u = ⊥
IsFirst name n (v ∷ vs) u = ((name v ≡ n) × (v ≡ u)) ⊎ ((name v ≢ n) × IsFirst name n vs u)

module _ (digest : (password : Bytes) → (salt : Bytes) → Option Bytes) where
  -- A user's entry lets a password in.
  abbrev pub Opens : Unpwd → (password : Option Bytes) → Type 0
  Opens u password =
      (u.password ≡ none)
      ⊎ ((stored : Bytes) × (p : Bytes) × (u.password ≡ some stored)
          × (password ≡ some p)
          × (digest p u.salt ≡ some stored))

  -- A client is let in: it has a name where that is asked for, and where there are users its name is
  -- that of one of them, whose entry lets its password in.
  abbrev pub IsLetIn : (allow_anonymous : Bool) → List Unpwd → Login → Type 0
  IsLetIn allow_anonymous unpwd c =
      ((allow_anonymous ≡ true) ⊎ (c.session.username ≢ none))
      × ((unpwd ≡ [])
          ⊎ ((name : Bytes) × (u : Unpwd) × (c.session.username ≡ some name)
              × IsFirst (λ v. v.username) name unpwd u
              × Opens u c.password))

  entry_check_zero :
      (u : Unpwd) (password : Option Bytes) → entry_check digest u password ≡ 0 → Opens u password
  unfolding entry_check
  entry_check_zero u password h = elim (Option-cases u.password) [
    | inl e ↦ inl e
    | inr (stored, e) ↦ (elim (Option-cases password) [
      | inl f ↦ absurd (ground (arith, e, f))
      | inr (p, f) ↦ (elim (Option-cases (digest p u.salt)) [
        | inl g ↦ absurd (ground (arith, e, f, g))
        | inr (hash, g) ↦ (elim (Bool-cases (str_eq stored hash)) [
          | inl same ↦ inr (stored, p, e, f, rw (str_eq-eq stored hash same) g)
          | inr other ↦ absurd (ground (arith, e, f, g, other))
        ])
      ])
    ])
  ]

  Opens-entry_check :
      (u : Unpwd) (password : Option Bytes) → Opens u password → entry_check digest u password ≡ 0
  unfolding entry_check
  Opens-entry_check u password (inl e) = rw e refl
  Opens-entry_check u password (inr (stored, p, e, f, g)) =
      simp (e, f, g, str_eq_refl stored, entry_check) refl

  unpwd_loop-IsFirst :
      (us : List Unpwd) (name : Bytes) (password : Option Bytes) (u : Unpwd)
      → IsFirst (λ v. v.username) name us u
      → unpwd_loop digest us name password ≡ entry_check digest u password
  unfolding unpwd_loop
  unpwd_loop-IsFirst [] name password u h = elim h [ ]
  unpwd_loop-IsFirst (v ∷ vs) name password u (inl (e, same)) =
      let test : str_eq v.username name ≡ true = rw e (str_eq_refl name) in
      rw test (ap (λ x. entry_check digest x password) same)
  unpwd_loop-IsFirst (v ∷ vs) name password u (inr (other, h)) =
      elim (Bool-cases (str_eq v.username name)) [
        | inl e ↦ absurd (other (str_eq-eq v.username name e))
        | inr e ↦ rw e (unpwd_loop-IsFirst vs name password u h)
      ]

  unpwd_loop_zero :
      (us : List Unpwd) (name : Bytes) (password : Option Bytes)
      → unpwd_loop digest us name password ≡ 0
      → (u : Unpwd) × IsFirst (λ v. v.username) name us u × Opens u password
  unfolding unpwd_loop
  unpwd_loop_zero [] name password h = absurd (omega arith)
  unpwd_loop_zero (v ∷ vs) name password h = elim (Bool-cases (str_eq v.username name)) [
    | inl e ↦ (v, inl (str_eq-eq v.username name e, refl), entry_check_zero v password (rw e at h))
    | inr e ↦
        (let (u, first, opens) = unpwd_loop_zero vs name password (rw e at h) in
          (u, inr ((λ same. absurd (ground (arith, e, same, str_eq_refl name))), first), opens))
  ]

  unpwd_check_zero :
      (us : List Unpwd) (c : Login)
      → unpwd_check digest us c.session.username c.password ≡ 0
      → (us ≡ [])
        ⊎ ((name : Bytes) × (u : Unpwd) × (c.session.username ≡ some name)
            × IsFirst (λ v. v.username) name us u
            × Opens u c.password)
  unfolding unpwd_check
  unpwd_check_zero [] c h = inl refl
  unpwd_check_zero (v ∷ vs) c h = elim (Option-cases c.session.username) [
    | inl e ↦ absurd (ground (arith, e))
    | inr (name, e) ↦
        (let (u, first, opens) = unpwd_loop_zero (v ∷ vs) name c.password (rw e at h) in
          inr (name, u, e, first, opens))
  ]

  unpwd_check-Opens :
      (us : List Unpwd) (c : Login) (name : Bytes) (u : Unpwd)
      → c.session.username ≡ some name
      → IsFirst (λ v. v.username) name us u
      → Opens u c.password
      → unpwd_check digest us c.session.username c.password ≡ 0
  unfolding unpwd_check
  unpwd_check-Opens [] c name u e first opens = elim first [ ]
  unpwd_check-Opens (v ∷ vs) c name u e first opens =
      rw e
        (unpwd_loop-IsFirst (v ∷ vs) name c.password u first ∙ Opens-entry_check u c.password opens)

  -- The two tests of the call, together
  unfoldable pub passes : Bool → List Unpwd → Login → Bool
  passes allow_anonymous us c =
      not (not allow_anonymous && is_absent c.session.username)
      && unpwd_check digest us c.session.username c.password == 0

  pub passes-IsLetIn :
      (allow_anonymous : Bool) (us : List Unpwd) (c : Login)
      → passes allow_anonymous us c ≡ true
      → IsLetIn allow_anonymous us c
  unfolding passes
  passes-IsLetIn allow us c h = (
    elim (Bool-cases allow) [
      | inl e ↦ inl e
      | inr e ↦ inr (λ absent. absurd (ground (arith, e, absent)))
    ],
    unpwd_check_zero us c (ground arith),
  )

  pub IsLetIn-passes :
      (allow_anonymous : Bool) (us : List Unpwd) (c : Login)
      → IsLetIn allow_anonymous us c
      → passes allow_anonymous us c ≡ true
  unfolding passes
  IsLetIn-passes allow us c (named, known) =
      let zero_code : unpwd_check digest us c.session.username c.password ≡ 0 = elim known [
        | inl e ↦ unfold unpwd_check in rw e refl
        | inr (name, u, e, first, opens) ↦ unpwd_check-Opens us c name u e first opens
      ] in
      let first_test : (not allow && is_absent c.session.username) ≡ false = elim named [
        | inl e ↦ rw e refl
        | inr e ↦ (elim (Option-cases c.session.username) [
          | inl absent ↦ absurd (e absent)
          | inr (name, there) ↦ ground (arith, there)
        ])
      ] in
      rw (first_test, zero_code) refl
