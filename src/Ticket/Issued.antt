-- ===== src/Ticket/Issued.antt =====
-- The tickets of one counter are told apart, also at one revision.
use matcha.Common.{ℕ, ◌≤◌, ◌≡◌, ◌≢◌, refl, ap, List, [], ◌∷◌, map, arith}
use matcha.Ticket.{Ticket, Counter, issue}

-- One request after the other.
unfoldable pub issue_all : Counter → List ℕ → List Ticket
issue_all c [] = []
issue_all c (r ∷ rs) = (issue c r).1 ∷ issue_all (issue c r).0 rs

abbrev pub Differs : Ticket → List Ticket → Type 0
Differs t [] = Unit
Differs t (u ∷ us) = (t ≢ u) × Differs t us

abbrev pub AllDistinct : List Ticket → Type 0
AllDistinct [] = Unit
AllDistinct (t ∷ ts) = Differs t ts × AllDistinct ts

issue_all-Differs :
    (t : Ticket) (c : Counter) (rs : List ℕ) → t.seq ≤ c.issued → Differs t (issue_all c rs)
unfolding issue_all issue
issue_all-Differs t c [] h = tt
issue_all-Differs t c (r ∷ rs) h = (
  λ e. let same = ap (λ (u : Ticket). u.seq) e in omega (arith, same),
  issue_all-Differs t (issue c r).0 rs (omega arith),
)

-- The tickets that a counter issues for any sequence of requests are pairwise distinct, and each
-- reports the revision of its request.
pub issue_all-AllDistinct :
    (c : Counter) (rs : List ℕ)
    → AllDistinct (issue_all c rs) × (map (λ t. t.revision) (issue_all c rs) ≡ rs)
unfolding issue_all issue
issue_all-AllDistinct c [] = (tt, refl)
issue_all-AllDistinct c (r ∷ rs) =
    let rest = issue_all-AllDistinct (issue c r).0 rs in
    ((issue_all-Differs (issue c r).1 (issue c r).0 rs (omega arith), rest.0), ap (r ∷◌) rest.1)
