-- ===== src/Common/Order.antt =====
-- `<` on the native numbers is well founded.
use mathlib.Core.WellFounded.{Acc, WellFounded}
use Prim.Native.Nat.{ℕ, zero, suc, ◌<◌}
use mathlib.Core.Logic.{dite}
use native.Mathlib.Omega.{arith}

Acc-below : (k n : ℕ) → n < k → Acc ◌<◌ n
Acc-below zero n h = elim h [ ]
Acc-below (suc k) n h = Acc.intro n (λ m hm. Acc-below k m (omega arith))

unfoldable pub lt_wf : WellFounded ◌<◌
unfolding Acc-below
lt_wf = record { apply = λ n. Acc-below (suc n) n (omega arith) }

-- To prove a property of a branch on a decision that hands its proof on.
pub dite_cases {ℓ κ μ} :
    {Q : Type ℓ} {A : Type κ} (P : A → Type μ) (d : Dec Q) (f : Q → A) (g : ¬ Q → A)
    → ((q : Q) → P (f q))
    → ((n : ¬ Q) → P (g n))
    → P (dite d f g)
dite_cases P (yes q) f g hf hg = hf q
dite_cases P (no n) f g hf hg = hg n
