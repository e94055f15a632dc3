-- ===== src/Restart/Verdicts.antt =====
-- A window gives up exactly when more losses than its policy allows fall within its width.
use matcha.Common.{
  ℕ, suc, ◌-◌, ◌≤◌, ◌<◌, ◌≡◌, refl, sym, ap, ◌∙◌, Bool, true, false, List, [], ◌∷◌, ◌++◌, leb,
  Bool-cases, arith, inl, inr, if◌then◌else◌, leb→le, leb→lt, drop, length, length-append, ◌≢◌,
  drop-nil,
}
use matcha.Restart.{Policy, up_to, Window, Verdict, restart, exhausted, new, judge, admit, reset}
use matcha.Restart.Recent.{
  recent, count_within, InOrder, oldest_counts, count_within_le, recent-snoc, recent-few,
  recent-many, length-recent,
}

exhausted≢restart : exhausted ≢ restart
exhausted≢restart e = cc

-- The window after the losses since it was last reset, each of which was answered with a restart.
pub data Restarted (count within : ℕ) : List ℕ → Window → Type 0 where
  begin : Restarted count within [] (new (up_to count within))
  again :
      (ts : List ℕ) (w w' : Window) (t : ℕ)
      → Restarted count within ts w
      → admit w t ≡ (w', restart)
      → Restarted count within (ts ++ t ∷ []) w'
  forget :
      (ts : List ℕ) (w : Window) → Restarted count within ts w → Restarted count within [] (reset w)

judge-few :
    (policy : Policy) (count within now : ℕ) (ls : List ℕ)
    → length ls ≤ count
    → judge policy count within now ls ≡ (record { policy = policy; losses = ls }, restart)
unfolding judge
judge-few policy count within now [] h = refl
judge-few policy count within now (oldest ∷ rest) h =
    let e : leb (length (oldest ∷ rest)) count ≡ true = ground arith in rw (e, judge) refl

judge-many :
    (policy : Policy) (count within now oldest : ℕ) (rest : List ℕ)
    → count < length (oldest ∷ rest)
    → judge policy count within now (oldest ∷ rest) ≡ (
        if leb (now - oldest) within
        then (record { policy = policy; losses = oldest ∷ rest }, exhausted)
        else (record { policy = policy; losses = rest }, restart))
unfolding judge
judge-many policy count within now oldest rest h =
    let e : leb (length (oldest ∷ rest)) count ≡ false = ground arith in rw (e, judge) refl

-- A restart past the limit drops the oldest loss.
judge-restart :
    (policy : Policy) (count within now : ℕ) (ls : List ℕ) (w : Window)
    → count < length ls
    → judge policy count within now ls ≡ (w, restart)
    → w ≡ record { policy = policy; losses = drop 1 ls }
judge-restart policy count within now [] w h e = absurd (omega arith)
judge-restart policy count within now (oldest ∷ rest) w h e =
    let many = judge-many policy count within now oldest rest h in
    elim (Bool-cases (leb (now - oldest) within)) [
      | inl t ↦
          let late : judge policy count within now (oldest ∷ rest)
              ≡ (record { policy = policy; losses = oldest ∷ rest }, exhausted) =
            many ∙ rw t refl in
          absurd (exhausted≢restart (ap (λ r. r.1) (sym late ∙ e)))
      | inr t ↦
          let early : judge policy count within now (oldest ∷ rest)
              ≡ (record { policy = policy; losses = rest }, restart) =
            many ∙ rw t refl in
          ap (λ r. r.0) (sym e ∙ early)
    ]

admit-judge :
    (w : Window) (now count within : ℕ)
    → w.policy ≡ up_to count within
    → admit w now ≡ judge (up_to count within) count within now (w.losses ++ now ∷ [])
unfolding admit
admit-judge w now count within h =
    rw (h, admit) (ap (λ p. judge p count within now (w.losses ++ now ∷ [])) h)

-- The losses kept are the last `count` of all.
Restarted-recent :
    (count within : ℕ) (ts : List ℕ) (w : Window)
    → Restarted count within ts w
    → (w.policy ≡ up_to count within) × (w.losses ≡ recent count ts)
unfolding new reset recent
Restarted-recent count within [] w begin = (refl, sym (drop-nil (0 - count)))
Restarted-recent count within [] w (forget ts v r) =
    ((Restarted-recent count within ts v r).0, sym (drop-nil (0 - count)))
Restarted-recent count within ts' w (again ts v _ t r h) =
    let (p, l) = Restarted-recent count within ts v r in
    let judged : judge (up_to count within) count within t (recent count ts ++ t ∷ [])
        ≡ (w, restart) =
      ap (λ ls. judge (up_to count within) count within t (ls ++ t ∷ [])) (sym l)
      ∙ sym (admit-judge v t count within p)
      ∙ h in
    let len = length-append (recent count ts) (t ∷ []) in
    let kept = length-recent count ts in
    elim (Bool-cases (leb count (length ts))) [
      | inl e ↦
          let same =
            judge-restart (up_to count within) count within t (recent count ts ++ t ∷ []) w
              (ground (arith, len, kept)) judged in
          (
            ap (λ (x : Window). x.policy) same,
            ap (λ (x : Window). x.losses) same ∙ sym (recent-many count t ts (leb→le _ _ e)),
          )
      | inr e ↦
          let same =
            sym judged
            ∙ judge-few (up_to count within) count within t (recent count ts ++ t ∷ [])
                (ground (arith, len, kept)) in
          (
            ap (λ (x : Window × Verdict). x.0.policy) same,
            ap (λ (x : Window × Verdict). x.0.losses) same
                ∙ sym (recent-few count t ts (leb→lt _ _ e)),
          )
    ]

verdict_of :
    (v w : Window) (a b : Bool)
    → a ≡ b
    → (λ (x : Window × Verdict). x.1) (if a then (v, exhausted) else (w, restart))
      ≡ (if b then exhausted else restart)
verdict_of v w true b e = rw (sym e) refl
verdict_of v w false b e = rw (sym e) refl

-- The verdict on the losses kept, of all losses `ts` and `now`.
judge-count_within :
    (policy : Policy) (count within now : ℕ) (all ls : List ℕ)
    → InOrder 0 all
    → ls ≡ recent (suc count) all
    → (judge policy count within now ls).1
      ≡ (if leb (suc count) (count_within now within all) then exhausted else restart)
unfolding judge recent
judge-count_within policy count within now all [] o e =
    let len = ap length e ∙ length-recent (suc count) all in
    let few = count_within_le now within all in
    let no : leb (suc count) (count_within now within all) ≡ false = ground (arith, len, few) in
    rw (no, judge) refl
judge-count_within policy count within now all (oldest ∷ rest) o e =
    let len = ap length e ∙ length-recent (suc count) all in
    let few = count_within_le now within all in
    elim (Bool-cases (leb (suc count) (length all))) [
      | inl full ↦
          let many = judge-many policy count within now oldest rest (ground (arith, len)) in
          let counts =
            oldest_counts now within count 0 all oldest rest o (sym e) (leb→le _ _ full) in
          ap (λ x. x.1) many ∙ verdict_of _ _ (leb (now - oldest) within) _ counts
      | inr short ↦
          let no : leb (suc count) (count_within now within all) ≡ false = ground (arith, few) in
          ap (λ x. x.1) (judge-few policy count within now (oldest ∷ rest) (ground (arith, len)))
          ∙ rw no refl
    ]

-- The window after losses that were each answered with a restart, since the last reset if there was
-- one, answers the next loss with `Exhausted` when more losses than `count`, this one with them, fall
-- within `within` of it, and with `Restart` when not.
pub admit-count_within :
    (count within now : ℕ) (ts : List ℕ) (w : Window)
    → Restarted count within ts w
    → InOrder 0 (ts ++ now ∷ [])
    → (admit w now).1
      ≡ (if leb (suc count) (count_within now within (ts ++ now ∷ [])) then exhausted else restart)
admit-count_within count within now ts w r o =
    let (p, l) = Restarted-recent count within ts w r in
    ap (λ x. x.1) (admit-judge w now count within p)
    ∙ judge-count_within (up_to count within) count within now (ts ++ now ∷ [])
        (w.losses ++ now ∷ []) o (ap (◌++ now ∷ []) l ∙ sym (recent-snoc count now ts))
