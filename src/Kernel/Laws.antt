-- ===== src/Kernel/Laws.antt =====
-- Inversion of a run: what a block that ended in a value says of its parts.
use network_testing.Common.{ℕ, zero, suc, ◌+◌, arith, ◌≡◌, ◌⊎◌, inl, inr, refl}
use network_testing.Kernel.{
  Rc, ret, err, Call, after, Proc, Run, done, exited, crashed, out_of_fuel, M, and_then,
}

module _ {A B : Type 0} where
  pub and_then-eq_done :
      (r : Run A) (k : A → M B) {b : B} {s : Proc}
      → and_then r k ≡ done b s
      → (a : A) × (t : Proc) × (r ≡ done a t) × (k a t ≡ done b s)
  and_then-eq_done (done a t) k h = (a, t, refl, h)
  and_then-eq_done (exited c t) k h = cc
  and_then-eq_done (crashed t) k h = cc
  and_then-eq_done (out_of_fuel t) k h = cc

pub Rc-cases : (r : Rc) → ((k : ℕ) × (r ≡ ret k)) ⊎ ((e : ℕ) × (r ≡ err e))
Rc-cases (ret k) = inl (k, refl)
Rc-cases (err e) = inr (e, refl)

-- The process after `n` calls of one kind.
unfoldable pub after_calls : Call → ℕ → Proc → Proc
after_calls c zero s = s
after_calls c (suc n) s = after_calls c n (after c s)

pub verbose-after_calls : (c : Call) (n : ℕ) (s : Proc) → (after_calls c n s).verbose ≡ s.verbose
unfolding after_calls
verbose-after_calls c zero s = refl
verbose-after_calls c (suc n) s = verbose-after_calls c n (after c s)

pub tick-after_calls : (c : Call) (n : ℕ) (s : Proc) → (after_calls c n s).tick ≡ s.tick + n
unfolding after_calls
tick-after_calls c zero s = omega arith
tick-after_calls c (suc n) s = omega (arith, tick-after_calls c n (after c s))
