-- ===== src/Subs/Steps/Session.antt =====
-- `mqtt3_subs_clean_session` keeps the tree in order.
use wirenboard.Common.{
  ℕ, refl, Bool, false, Bool-cases, Option-cases, inl, inr, Option, none, some, List, [], ◌∷◌, ℤ,
  ◌==◌, zero, suc,
}
use wirenboard.Subs.Tree.{Hier, end, node, Subscriber}
use wirenboard.Subs.Prune.{remove_leaf}
use wirenboard.Subs.Calls.{remove_at, clean_loop, clean_session}
use wirenboard.Subs.Shape.{Searched, branch, Searched-same}
use wirenboard.Subs.Steps.{InOrder}
use wirenboard.Subs.Steps.Publishing.{Searched-InOrder}

Shorn : Hier → Option (Hier × Bool) → Type 0
Shorn h none = Unit
Shorn h (some (h', b)) = Searched false h h'

remove_at-Shorn : (c a : ℕ) (h : Hier) → Shorn h (remove_at c a h)
unfolding remove_at Shorn
remove_at-Shorn c a end = tt
remove_at-Shorn c a (node n ch next) =
    let below = remove_at-Shorn c a ch in
    let beside = remove_at-Shorn c a next in
    elim (Bool-cases (n.address == a)) [
      | inl here ↦ (elim (Option-cases (remove_leaf c n.subs)) [
        | inl e ↦ rw (here, e, remove_at) (Searched-same false (node n ch next))
        | inr (ls, e) ↦
            rw (here, e, remove_at)
              (branch {below = false} refl (λ f. refl) (λ f. refl) (λ f. refl)
                (Searched-same false ch) (Searched-same false next))
      ])
      | inr there ↦ (elim (Option-cases (remove_at c a ch)) [
        | inr ((ch', found), e) ↦
            rw (there, e, remove_at)
              (branch {below = false} refl (λ f. refl) (λ f. refl) (λ f. refl) (rw e at below)
                (Searched-same false next))
        | inl e ↦ (elim (Option-cases (remove_at c a next)) [
          | inl e' ↦ rw (there, e, e', remove_at) tt
          | inr ((next', found), e') ↦
              rw (there, e, e', remove_at)
                (branch {below = false} refl (λ f. refl) (λ f. refl) (λ f. refl)
                  (Searched-same false ch) (rw e' at beside))
        ])
      ])
    ]

Cleaned : Option (Hier × ℤ) → Type 0
Cleaned none = Unit
Cleaned (some (h, n)) = InOrder h

clean_loop-InOrder :
    (c count : ℕ) (refs : List (Option ℕ)) (roots : Hier) (n : ℤ)
    → InOrder roots
    → Cleaned (clean_loop c count refs roots n)
unfolding clean_loop Cleaned Shorn
clean_loop-InOrder c zero refs roots n i = i
clean_loop-InOrder c (suc count) [] roots n i = tt
clean_loop-InOrder c (suc count) (none ∷ refs) roots n i = clean_loop-InOrder c count refs roots n i
clean_loop-InOrder c (suc count) (some a ∷ refs) roots n i =
    let shorn = remove_at-Shorn c a roots in
    elim (Option-cases (remove_at c a roots)) [
      | inl e ↦ rw (e, clean_loop) tt
      | inr ((roots', found), e) ↦
          rw (e, clean_loop)
            (clean_loop-InOrder c count refs roots' _ (Searched-InOrder (rw e at shorn) i))
    ]

unfoldable pub Left : Option (Hier × Subscriber × ℤ) → Type 0
Left none = Unit
Left (some (h, c, n)) = InOrder h

pub clean_session-InOrder :
    (c : Subscriber) (roots : Hier) (n : ℤ) → InOrder roots → Left (clean_session c roots n)
unfolding clean_session Cleaned Left
clean_session-InOrder c roots n i =
    let refs : List (Option ℕ) = elim c.subs [ none ↦ [] | some ss ↦ ss ] in
    let kept = clean_loop-InOrder c.address c.sub_count refs roots n i in
    elim (Option-cases (clean_loop c.address c.sub_count refs roots n)) [
      | inl f ↦ rw (f, clean_session) tt
      | inr ((h, k), f) ↦ rw (f, clean_session) (rw f at kept)
    ]
