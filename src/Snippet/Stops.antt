-- ===== src/Snippet/Stops.antt =====
-- A parsed snippet's stops: in the text, in visit order, each index once, and the final one last.
use matcha.Common.{
  ℕ, ◌≤◌, ◌<◌, ◌≡◌, refl, sym, ap, ◌∙◌, true, false, List, [], ◌∷◌, ◌++◌, length, leb, ◌==◌, ◌||◌,
  Bool-cases, arith, inl, inr, some, subst,
}
use matcha.Snippet.{
  TabStop, Snippet, Parsed, Result, ok, after, contains, insert_stop, sort_stops, finish, parse,
  stop_from, text_len, final_index, nothing_parsed,
}
use matcha.Snippet.Reading.{Holds, Holds-after}
use matcha.Snippet.Rounds.{
  IsParsed, indices, Distinct, Placed, AllPlaced, AllPlaced-append, indices-append, Distinct-snoc,
  parse_from-IsParsed, nothing_parsed-IsParsed, contains-snoc, stop_from-Placed,
}

-- Strictly ascending indices above `at`.
abbrev Rising : ℕ → List TabStop → Type 0
Rising at [] = Unit
Rising at (s ∷ ss) = (at < s.index) × Rising s.index ss

-- Strictly ascending indices above `at`, and the last one the final stop's.
abbrev pub Visits : ℕ → List TabStop → Type 0
Visits at [] = at ≡ final_index
Visits at (s ∷ ss) = (at < s.index) × Visits s.index ss

AllPlaced-insert_stop :
    (n : ℕ) (s : TabStop) (ss : List TabStop)
    → Placed n s
    → AllPlaced n ss
    → AllPlaced n (insert_stop s ss)
unfolding insert_stop
AllPlaced-insert_stop n s [] p a = (p, tt)
AllPlaced-insert_stop n s (t ∷ ts) p a = elim (Bool-cases (leb s.index t.index)) [
  | inl e ↦ rw (e, insert_stop) (p, a)
  | inr e ↦ rw (e, insert_stop) (a.0, AllPlaced-insert_stop n s ts p a.1)
]

AllPlaced-sort_stops : (n : ℕ) (ss : List TabStop) → AllPlaced n ss → AllPlaced n (sort_stops ss)
unfolding sort_stops
AllPlaced-sort_stops n [] a = tt
AllPlaced-sort_stops n (s ∷ ss) a =
    AllPlaced-insert_stop n s (sort_stops ss) a.0 (AllPlaced-sort_stops n ss a.1)

contains-insert_stop :
    (s : TabStop) (ss : List TabStop) (m : ℕ)
    → contains (indices (insert_stop s ss)) m ≡ ((s.index == m) || contains (indices ss) m)
unfolding insert_stop indices contains
contains-insert_stop s [] m = refl
contains-insert_stop s (t ∷ ts) m = let ih = contains-insert_stop s ts m in ground (arith, ih)

contains-sort_stops :
    (ss : List TabStop) (m : ℕ) → contains (indices (sort_stops ss)) m ≡ contains (indices ss) m
unfolding sort_stops indices contains
contains-sort_stops [] m = refl
contains-sort_stops (s ∷ ss) m =
    contains-insert_stop s (sort_stops ss) m ∙ ap ((s.index == m) ||◌) (contains-sort_stops ss m)

Rising-insert_stop :
    (s : TabStop) (ss : List TabStop) (at : ℕ)
    → at < s.index
    → Rising at ss
    → contains (indices ss) s.index ≡ false
    → Rising at (insert_stop s ss)
unfolding insert_stop indices contains
Rising-insert_stop s [] at h r f = (h, tt)
Rising-insert_stop s (t ∷ ts) at h r f = elim (Bool-cases (leb s.index t.index)) [
  | inl e ↦ rw (e, insert_stop) (h, (ground arith, r.1))
  | inr e ↦
      rw (e, insert_stop) (r.0, Rising-insert_stop s ts t.index (ground arith) r.1 (ground arith))
]

Rising-sort_stops :
    (n : ℕ) (ss : List TabStop) → AllPlaced n ss → Distinct (indices ss) → Rising 0 (sort_stops ss)
unfolding sort_stops indices
Rising-sort_stops n [] a d = tt
Rising-sort_stops n (s ∷ ss) ((b, c, (l, u)), a) (fresh, d) =
    Rising-insert_stop s (sort_stops ss) 0 l (Rising-sort_stops n ss a d)
      (contains-sort_stops ss s.index ∙ fresh)

-- Nothing below the first index is contained.
contains_below :
    (ss : List TabStop) (at m : ℕ) → Rising at ss → m ≤ at → contains (indices ss) m ≡ false
unfolding indices contains
contains_below [] at m r h = refl
contains_below (s ∷ ss) at m r h =
    let below = contains_below ss s.index m r.1 (omega (arith, r.0)) in ground (arith, below, r.0)

-- Rising indices that do not pass the final one and contain it end with it.
Rising-Visits :
    (n : ℕ) (ss : List TabStop) (at : ℕ)
    → Rising at ss
    → AllPlaced n ss
    → ((at == final_index) || contains (indices ss) final_index) ≡ true
    → Visits at ss
unfolding indices contains
Rising-Visits n [] at r a h = ground arith
Rising-Visits n (s ∷ ss) at r ((b, c, (l, u)), a) h =
    (r.0, Rising-Visits n ss s.index r.1 a (ground (arith, r.0)))

-- The stops of a snippet lie in its text, in the strict order of their indices, the final one last.
abbrev pub InOrder : Snippet → Type 0
InOrder s = AllPlaced (text_len s.text) s.stops × Visits 0 s.stops

sorted-InOrder :
    (text : List ℕ) (ss : List TabStop)
    → AllPlaced (text_len text) ss
    → Distinct (indices ss)
    → contains (indices ss) final_index ≡ true
    → InOrder (record { text = text; stops = sort_stops ss })
sorted-InOrder text ss a d c =
    let placed = AllPlaced-sort_stops (text_len text) ss a in
    (
      placed,
      Rising-Visits (text_len text) (sort_stops ss) 0 (Rising-sort_stops (text_len text) ss a d)
          placed (contains-sort_stops ss final_index ∙ c),
    )

finish-InOrder : (p : Parsed) → IsParsed p → InOrder (finish p)
unfolding finish stop_from indices
finish-InOrder p i = elim (Bool-cases (contains p.seen final_index)) [
  | inl e ↦
      rw (e, finish)
        (sorted-InOrder p.text p.stops i.placed (subst Distinct (sym i.seen) i.distinct)
          (ap (λ ns. contains ns final_index) i.seen ∙ e))
  | inr e ↦
      let last = stop_from final_index (text_len p.text) p [] in
      let listed : indices (p.stops ++ last ∷ []) ≡ p.seen ++ final_index ∷ [] =
        indices-append p.stops (last ∷ []) ∙ ap (◌++ final_index ∷ []) i.seen in
      rw (e, finish)
        (sorted-InOrder p.text (p.stops ++ last ∷ [])
          (AllPlaced-append (text_len p.text) p.stops (last ∷ []) i.placed (
            stop_from-Placed final_index (text_len p.text) p [] (omega arith, omega arith)
                (omega arith),
            tt,
          ))
          (subst Distinct (sym listed) (Distinct-snoc p.seen final_index i.distinct e))
          (ap (λ ns. contains ns final_index) listed
            ∙ contains-snoc p.seen final_index final_index
            ∙ ap (◌|| true) e))
]

-- Parsing any body ends, and where it gives a snippet, the stops lie in its text, with indices that
-- rise strictly, from 1 or more, to the final stop's, which is the last.
pub parse-InOrder : (body : List ℕ) → (r : Result Snippet) × (parse body ≡ some r) × Holds InOrder r
unfolding parse
parse-InOrder body =
    let (r, e, h) =
      parse_from-IsParsed (length body) nothing_parsed body (omega arith) nothing_parsed-IsParsed in
    (
      after r (λ p. ok (finish p)),
      rw (e, parse) refl,
      Holds-after IsParsed InOrder r (λ p. ok (finish p)) h finish-InOrder,
    )
