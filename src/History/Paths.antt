-- ===== src/History/Paths.antt =====
-- Replaying the steps of an element: forwards they take the text before to the text after, and the
-- inverses in reverse order take it back.
use matcha.Common.{
  ℕ, ◌≡◌, refl, sym, ap, ◌∙◌, subst, Option, none, some, List, [], ◌∷◌, ◌++◌, map, reverse,
}
use mathlib.Core.List.{reverse-append}
use matcha.Ropey.{Ropey}
use matcha.Buffer.{Buffer}
use matcha.Buffer.Edits.{content}
use matcha.Selection.{rebase}
use matcha.Transaction.{EditOp, Committed, Outcome, ok, err, apply}
use matcha.Transaction.Apply.{IsDocument}
use matcha.Transaction.Replay.{Takes}
use matcha.Arena.{Step}
use matcha.History.{Replay, replay}

module _ (R : Ropey) where
  -- The steps lead from the text `t` to `u`, each of them forth and back.
  abbrev pub Leads : List Step → List ℕ → List ℕ → Type 0
  Leads [] t u = t ≡ u
  Leads (s ∷ ss) t u =
      (mid : List ℕ) × Takes R s.forward t mid × Takes R s.inverse mid t × Leads ss mid u

  pub Leads-append :
      (ss : List Step) (s : Step) (t u w : List ℕ)
      → Leads ss t u
      → Takes R s.forward u w
      → Takes R s.inverse w u
      → Leads (ss ++ s ∷ []) t w
  Leads-append [] s t u w e forth back =
      subst (λ (x : List ℕ). Leads (s ∷ []) x w) (sym e) (w, forth, back, refl)
  Leads-append (s' ∷ ss) s t u w (mid, f, b, rest) forth back =
      (mid, f, b, Leads-append ss s mid u w rest forth back)

module _ (R : Ropey) {S : Type 0} (on_step : Committed → Buffer R → S → S) where
  -- The op sets are committed one after the other, from any document with the text `t`.
  abbrev pub ReplaysTo : List (List EditOp) → List ℕ → List ℕ → Type 0
  ReplaysTo steps t u =
      (r : Replay R on_step)
      → IsDocument R r.buffer
      → content R r.buffer ≡ t
      → (r' : Replay R on_step) × (replay R on_step steps r ≡ some r')
        × IsDocument R r'.buffer
        × (content R r'.buffer ≡ u)

  ReplaysTo-cons :
      (ops : List EditOp) (steps : List (List EditOp)) (t mid u : List ℕ)
      → Takes R ops t mid
      → ReplaysTo steps mid u
      → ReplaysTo (ops ∷ steps) t u
  unfolding replay
  ReplaysTo-cons ops steps t mid u one rest r v e =
      let (b, c, done, v', e') = one r.buffer v e in
      let next : Replay R on_step = record {
        buffer = b;
        selections = rebase r.selections c.patch;
        views = on_step c b r.views;
      } in
      let (r', more, v'', e'') = rest next v' e' in
      (
        r',
        ap
              (λ (o : Option (Buffer R × Outcome)). elim o [
                | none ↦ none
                | some (b, err e) ↦ none
                | some (b, ok c) ↦ replay R on_step steps (record {
                  buffer = b;
                  selections = rebase r.selections c.patch;
                  views = on_step c b r.views;
                })
              ])
              done
            ∙ more,
        v'',
        e'',
      )

  abbrev after : List (List EditOp) → Option (Replay R on_step) → Option (Replay R on_step)
  after ys o = elim o [ none ↦ none | some r ↦ replay R on_step ys r ]

  replay-append :
      (xs ys : List (List EditOp)) (r : Replay R on_step)
      → replay R on_step (xs ++ ys) r ≡ after ys (replay R on_step xs r)
  unfolding replay
  replay-append [] ys r = refl
  replay-append (ops ∷ xs) ys r = by_outcome (apply R r.buffer ops) (λ r'. replay-append xs ys r')
    where
      by_outcome :
          (o : Option (Buffer R × Outcome))
          → ((r' : Replay R on_step)
              → replay R on_step (xs ++ ys) r' ≡ after ys (replay R on_step xs r'))
          → elim o [
            | none ↦ none
            | some (b, err e) ↦ none
            | some (b, ok c) ↦ replay R on_step (xs ++ ys) (record {
              buffer = b;
              selections = rebase r.selections c.patch;
              views = on_step c b r.views;
            })
          ]
            ≡ after ys (elim o [
              | none ↦ none
              | some (b, err e) ↦ none
              | some (b, ok c) ↦ replay R on_step xs (record {
                buffer = b;
                selections = rebase r.selections c.patch;
                views = on_step c b r.views;
              })
            ])
      by_outcome none ih = refl
      by_outcome (some (b, err e)) ih = refl
      by_outcome (some (b, ok c)) ih = ih (record {
        buffer = b;
        selections = rebase r.selections c.patch;
        views = on_step c b r.views;
      })

  ReplaysTo-append :
      (xs ys : List (List EditOp)) (t mid u : List ℕ)
      → ReplaysTo xs t mid
      → ReplaysTo ys mid u
      → ReplaysTo (xs ++ ys) t u
  ReplaysTo-append xs ys t mid u first second r v e =
      let (r', done, v', e') = first r v e in
      let (r'', more, v'', e'') = second r' v' e' in
      (r'', replay-append xs ys r ∙ ap (after ys) done ∙ more, v'', e'')

  ReplaysTo-nothing : (t u : List ℕ) → t ≡ u → ReplaysTo [] t u
  unfolding replay
  ReplaysTo-nothing t u same r v e = (r, refl, v, e ∙ same)

  pub Leads-forth :
      (ss : List Step) (t u : List ℕ)
      → Leads R ss t u
      → ReplaysTo (map (λ (s : Step). s.forward) ss) t u
  Leads-forth [] t u e = ReplaysTo-nothing t u e
  Leads-forth (s ∷ ss) t u (mid, f, b, rest) =
      ReplaysTo-cons s.forward (map (λ (s : Step). s.forward) ss) t mid u f
        (Leads-forth ss mid u rest)

  pub Leads-back :
      (ss : List Step) (t u : List ℕ)
      → Leads R ss t u
      → ReplaysTo (reverse (map (λ (s : Step). s.inverse) ss)) u t
  Leads-back [] t u e = ReplaysTo-nothing u t (sym e)
  Leads-back (s ∷ ss) t u (mid, f, b, rest) =
      subst (λ (l : List (List EditOp)). ReplaysTo l u t)
        (sym (reverse-append (s.inverse ∷ []) (map (λ (s : Step). s.inverse) ss)))
        (ReplaysTo-append (reverse (map (λ (s : Step). s.inverse) ss)) (s.inverse ∷ []) u mid t
          (Leads-back ss mid u rest)
          (ReplaysTo-cons s.inverse [] mid t t b (ReplaysTo-nothing t t refl)))
