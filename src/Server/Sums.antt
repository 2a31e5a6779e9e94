-- ===== src/Server/Sums.antt =====
-- What the sessions of main.cpp add up to, and how one session's step changes it.
use aegis_proxy.Common.{ℕ, zero, suc, ◌+◌, ◌≡◌, List, [], ◌∷◌, some, arith, get_elem?, set}
use aegis_proxy.Session.State.{State}

-- A number that each session has, added up.
unfoldable pub sum_of : (State → ℕ) → List State → ℕ
sum_of f [] = 0
sum_of f (s ∷ ss) = f s + sum_of f ss

pub sum_of_others : (State → ℕ) → List State → ℕ → ℕ
sum_of_others f [] i = 0
sum_of_others f (s ∷ ss) zero = sum_of f ss
sum_of_others f (s ∷ ss) (suc i) = f s + sum_of_others f ss i

pub sum_of_one :
    (f : State → ℕ) (ss : List State) (i : ℕ) (s : State)
    → get_elem? ss i ≡ some s
    → sum_of f ss ≡ sum_of_others f ss i + f s
unfolding sum_of sum_of_others
sum_of_one f [] i s e = cc
sum_of_one f (t ∷ ss) zero s e = let same : t ≡ s = ground arith in rw same (omega arith)
sum_of_one f (t ∷ ss) (suc i) s e = omega (arith, sum_of_one f ss i s e)

pub sum_of-set :
    (f : State → ℕ) (ss : List State) (i : ℕ) (s t : State)
    → get_elem? ss i ≡ some s
    → sum_of f (set ss i t) ≡ sum_of_others f ss i + f t
unfolding sum_of sum_of_others
sum_of-set f [] i s t e = cc
sum_of-set f (u ∷ ss) zero s t e = omega arith
sum_of-set f (u ∷ ss) (suc i) s t e = omega (arith, sum_of-set f ss i s t e)
