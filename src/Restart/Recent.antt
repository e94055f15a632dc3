-- ===== src/Restart/Recent.antt =====
-- The last losses of a sequence, and how many of them lie within a window's width.
use matcha.Common.{
  ℕ, suc, ◌+◌, ◌-◌, ◌≤◌, ◌<◌, ◌≡◌, refl, sym, ap, ◌∙◌, true, List, [], ◌∷◌, ◌++◌, leb, Bool-cases,
  arith, inl, inr, if◌then◌else◌, drop, length, length-append, drop-append_le, drop-drop,
  length-drop, subst, get_or,
}

-- The last `n` elements, or all when there are fewer.
unfoldable pub recent : ℕ → List ℕ → List ℕ
recent n ts = drop (length ts - n) ts

-- How many of the losses lie at most `within` before `now`.
unfoldable pub count_within : ℕ → ℕ → List ℕ → ℕ
count_within now within [] = 0
count_within now within (t ∷ ts) =
    let rest = count_within now within ts in if leb (now - t) within then suc rest else rest

-- In the order of time.
abbrev pub InOrder : ℕ → List ℕ → Type 0
InOrder from [] = Unit
InOrder from (t ∷ ts) = (from ≤ t) × InOrder t ts

pub count_within_le : (now within : ℕ) (ts : List ℕ) → count_within now within ts ≤ length ts
unfolding count_within
count_within_le now within [] = omega arith
count_within_le now within (t ∷ ts) = ground (arith, count_within_le now within ts)

-- When the oldest of the losses counts, they all do.
count_within_all :
    (now within t : ℕ) (ts : List ℕ)
    → leb (now - t) within ≡ true
    → InOrder t ts
    → count_within now within ts ≡ length ts
unfolding count_within
count_within_all now within t [] h o = refl
count_within_all now within t (u ∷ ts) h o =
    let counts : leb (now - u) within ≡ true = ground (arith, o.0) in
    rw counts (ap suc (count_within_all now within u ts counts o.1))

-- The first of `k + 1` losses counts exactly when they all do.
newest_k :
    (now within k t : ℕ) (ts : List ℕ)
    → InOrder t ts
    → length ts ≡ k
    → leb (now - t) within ≡ leb (suc k) (count_within now within (t ∷ ts))
unfolding count_within
newest_k now within k t ts o h = elim (Bool-cases (leb (now - t) within)) [
  | inl e ↦
      let all = count_within_all now within t ts e o in
      rw (e, count_within) (ground (arith, all, h))
  | inr e ↦ let few = count_within_le now within ts in rw (e, count_within) (ground (arith, few, h))
]

-- A loss before `k + 1` later ones does not change whether more than `k` count.
older :
    (now within k u : ℕ) (ts : List ℕ) (t : ℕ)
    → InOrder u ts
    → leb (now - t) within ≡ leb (suc k) (count_within now within ts)
    → suc k ≤ length ts
    → leb (now - t) within ≡ leb (suc k) (count_within now within (u ∷ ts))
unfolding count_within
older now within k u ts t o ih h = elim (Bool-cases (leb (now - u) within)) [
  | inl e ↦
      let all = count_within_all now within u ts e o in
      ih ∙ rw (e, count_within) (ground (arith, all, h))
  | inr e ↦ ih ∙ rw (e, count_within) refl
]

-- The loss that has `k` later ones counts exactly when more than `k` losses count.
pub oldest_counts :
    (now within k from : ℕ) (ts : List ℕ) (t : ℕ) (rest : List ℕ)
    → InOrder from ts
    → drop (length ts - suc k) ts ≡ t ∷ rest
    → suc k ≤ length ts
    → leb (now - t) within ≡ leb (suc k) (count_within now within ts)
oldest_counts now within k from [] t rest o e h = absurd (omega arith)
oldest_counts now within k from (u ∷ ts) t rest o e h = elim (Bool-cases (leb (length ts) k)) [
  | inl last ↦
      let none_left : suc (length ts) - suc k ≡ 0 = ground arith in
      let same : u ≡ t = ap (λ xs. get_or xs 0 0) (ap (λ n. drop n (u ∷ ts)) (sym none_left) ∙ e) in
      subst (λ x. leb (now - x) within ≡ leb (suc k) (count_within now within (u ∷ ts))) same
        (newest_k now within k u ts o.1 (ground arith))
  | inr more ↦
      let step : suc (length ts) - suc k ≡ suc (length ts - suc k) = ground arith in
      let ih =
        oldest_counts now within k u ts t rest o.1 (ap (λ n. drop n (u ∷ ts)) (sym step) ∙ e)
          (ground arith) in
      older now within k u ts t o.1 ih (ground arith)
]

pub recent-snoc : (n t : ℕ) (ts : List ℕ) → recent (suc n) (ts ++ t ∷ []) ≡ recent n ts ++ t ∷ []
unfolding recent
recent-snoc n t ts =
    let len = length-append ts (t ∷ []) in
    let cut : length (ts ++ t ∷ []) - suc n ≡ length ts - n = omega (arith, len) in
    ap (λ m. drop m (ts ++ t ∷ [])) cut ∙ drop-append_le (length ts - n) ts (t ∷ []) (omega arith)

-- Fewer losses than `n` are all kept.
pub recent-few :
    (n t : ℕ) (ts : List ℕ) → length ts < n → recent n (ts ++ t ∷ []) ≡ recent n ts ++ t ∷ []
unfolding recent
recent-few n t ts h =
    let len = length-append ts (t ∷ []) in
    let a : length (ts ++ t ∷ []) - n ≡ 0 = omega (arith, len) in
    let b : length ts - n ≡ 0 = omega arith in rw (a, b) refl

-- Otherwise the oldest goes.
pub recent-many :
    (n t : ℕ) (ts : List ℕ)
    → n ≤ length ts
    → recent n (ts ++ t ∷ []) ≡ drop 1 (recent n ts ++ t ∷ [])
unfolding recent
recent-many n t ts h =
    let len = length-append ts (t ∷ []) in
    let cut : length (ts ++ t ∷ []) - n ≡ length ts - n + 1 = omega (arith, len) in
    ap (λ m. drop m (ts ++ t ∷ [])) cut
    ∙ sym (drop-drop 1 (length ts - n) (ts ++ t ∷ []))
    ∙ ap (drop 1) (drop-append_le (length ts - n) ts (t ∷ []) (omega arith))

pub length-recent : (n : ℕ) (ts : List ℕ) → length (recent n ts) ≡ length ts - (length ts - n)
unfolding recent
length-recent n ts = length-drop (length ts - n) ts
