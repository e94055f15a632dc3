-- ===== src/Tests/Services.antt =====
-- Restarts and request tickets at concrete inputs.
use matcha.Common.{◌≡◌, refl, [], ◌∷◌, leb, if◌then◌else◌, map, arith}
use matcha.Restart.{up_to, Window, new, admit, exhausted, restart}
use matcha.Restart.Recent.{count_within}
use matcha.Restart.Verdicts.{Restarted, begin, again, admit-count_within}
use matcha.Ticket.Issued.{issue_all, AllDistinct, issue_all-AllDistinct}

-- One restart allowed within 10, and a loss at 5.
abbrev once : Window
once = record { policy = up_to 1 10; losses = 5 ∷ [] }

once-Restarted : Restarted 1 10 (5 ∷ []) once
unfolding new admit
once-Restarted = again [] (new (up_to 1 10)) once 5 begin refl

admit-count_within_example :
    (admit once 12).1 ≡ (if leb 2 (count_within 12 10 (5 ∷ 12 ∷ [])) then exhausted else restart)
admit-count_within_example =
    admit-count_within 1 10 12 (5 ∷ []) once once-Restarted (omega arith, (omega arith, tt))

issue_all-AllDistinct_example :
    AllDistinct (issue_all (record { issued = 0 }) (3 ∷ 3 ∷ 4 ∷ []))
    × (map (λ t. t.revision) (issue_all (record { issued = 0 }) (3 ∷ 3 ∷ 4 ∷ [])) ≡ 3 ∷ 3 ∷ 4 ∷ [])
issue_all-AllDistinct_example = issue_all-AllDistinct (record { issued = 0 }) (3 ∷ 3 ∷ 4 ∷ [])
