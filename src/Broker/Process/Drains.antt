-- ===== src/Broker/Process/Drains.antt =====
-- The bounded wait for the drain threads at the end of `run` in keepty/src/broker.rs.
use keepty.Base.{ℕ, ◌≤◌, ◌≡◌, refl, List, [], ◌∷◌, Option, none, some, arith, ap₂, map}
use keepty.Broker.Process.{wait_finished, wait_drains, interrupted}

-- What one wait does to the time.
pub record Within (fallback now next : ℕ) (q : Option ℕ) : Type 0 where
  pub later : now ≤ next
  pub bounded : next ≤ fallback
  pub exact : (t : ℕ) → next ≤ t → t ≤ fallback → interrupted t q ≡ interrupted fallback q

wait_finished-Within :
    (fallback now : ℕ) (q : Option ℕ)
    → now ≤ fallback
    → Within fallback now (wait_finished fallback now q) q
wait_finished-Within fallback now none h = record {
  later = omega arith;
  bounded = omega arith;
  exact = λ t lo hi. refl;
}
wait_finished-Within fallback now (some f) h = record {
  later = ground arith;
  bounded = ground arith;
  exact = λ t lo hi. ground arith;
}

-- The time behind the waits, and the cut of each queue at that time.
pub wait_drains_lem :
    (fallback now : ℕ) (qs : List (Option ℕ))
    → now ≤ fallback
    → (now ≤ wait_drains fallback now qs)
      × (wait_drains fallback now qs ≤ fallback)
      × (map (interrupted (wait_drains fallback now qs)) qs ≡ map (interrupted fallback) qs)
unfolding wait_drains
wait_drains_lem fallback now [] h = (omega arith, h, refl)
wait_drains_lem fallback now (q ∷ qs) h =
    let w = wait_finished-Within fallback now q h in
    let (lo, hi, same) = wait_drains_lem fallback (wait_finished fallback now q) qs w.bounded in
    (omega (arith, w.later, lo), hi, ap₂ (◌∷◌) (w.exact _ lo hi) same)
