-- ===== src/Broker/Ring/Tests.antt =====
-- Runs of the ring buffer, after the tests in keepty/src/broker.rs.
use keepty.Base.{ℕ, ◌≡◌, refl, List, [], ◌∷◌, arith, flatten}
use keepty.Broker.Ring.{new, push, recent}
use keepty.Broker.Ring.History.{push_all, last_bytes, recent-push_all}

abbrev letters : List (List ℕ)
letters = (1 ∷ 2 ∷ 3 ∷ 4 ∷ []) ∷ (5 ∷ 6 ∷ 7 ∷ 8 ∷ []) ∷ (9 ∷ 10 ∷ []) ∷ []

multiple_wraps : recent (push_all letters (new 4)) ≡ 7 ∷ 8 ∷ 9 ∷ 10 ∷ []
unfolding recent push new
multiple_wraps = refl

recent-push_all_example : recent (push_all letters (new 4)) ≡ last_bytes 4 (flatten letters)
recent-push_all_example = recent-push_all 4 letters (omega arith) (omega arith)
