-- ===== src/Frame/Stream.antt =====
-- A stream of frames, in any reads.
use matcha.Common.{
  ℕ, ◌≡◌, refl, sym, ap, ◌∙◌, none, some, Option, List, [], ◌∷◌, ◌++◌, append_assoc, subst, map,
}
use matcha.Frame.{Decoder, Item, body, push}
use matcha.Frame.Framed.{Place, at, owed, Streams, AllFit, Delivers}
use matcha.Frame.Wire.{push-Delivers}

unfoldable pub push_then : List Item → Option (Decoder × List Item) → Option (Decoder × List Item)
push_then items none = none
push_then items (some (d, more)) = some (d, items ++ more)

-- What a decoder makes of reads, one after the other.
unfoldable pub push_all : Decoder → List (List ℕ) → Option (Decoder × List Item)
unfolding push_then
push_all d [] = some (d, [])
push_all d (input ∷ reads) = elim (push d input) [
  | none ↦ none
  | some (d', items) ↦ push_then items (push_all d' reads)
]

abbrev pub joined : List (List ℕ) → List ℕ
joined [] = []
joined (input ∷ reads) = input ++ joined reads

pub AllFit-back : (xs ys : List (List ℕ)) → AllFit (xs ++ ys) → AllFit ys
AllFit-back [] ys k = k
AllFit-back (x ∷ xs) ys k = AllFit-back xs ys k.1

map-append : (xs ys : List (List ℕ)) → map body xs ++ map body ys ≡ map body (xs ++ ys)
map-append [] ys = refl
map-append (x ∷ xs) ys = ap (body x ∷◌) (map-append xs ys)

push_then-Delivers :
    (done bs : List (List ℕ)) (rest : List ℕ) (r : Option (Decoder × List Item))
    → Delivers bs rest [] r
    → Delivers (done ++ bs) rest [] (push_then (map body done) r)
unfolding push_then
push_then-Delivers done bs rest none w = w
push_then-Delivers done bs rest (some (d, items)) (more, p, e, f, g, s) = (
  done ++ more,
  p,
  e,
  ap (map body done ++◌) f ∙ map-append done more,
  ap (done ++◌) g ∙ sym (append_assoc done more (owed p)),
  s,
)

-- The reads after one that delivered.
after_read :
    (reads : List (List ℕ)) (bs : List (List ℕ)) (rest : List ℕ) (r : Option (Decoder × List Item))
    → ((p : Place)
        → AllFit (owed p)
        → Streams p (joined reads ++ rest)
        → Delivers (owed p) rest [] (push_all (at p) reads))
    → AllFit bs
    → Delivers bs (joined reads ++ rest) [] r
    → Delivers bs rest []
        (elim r [ none ↦ none | some (d', items) ↦ push_then items (push_all d' reads) ])
after_read reads bs rest none f k w = w
after_read reads bs rest (some (d, items)) f k (done, p, e, g, h, s) =
    subst (λ xs. Delivers xs rest [] (push_then items (push_all d reads))) (sym h)
      (subst (λ xs. Delivers (done ++ owed p) rest [] (push_then xs (push_all d reads))) (sym g)
        (push_then-Delivers done (owed p) rest (push_all d reads) (
          subst (λ d'. Delivers (owed p) rest [] (push_all d' reads)) (sym e)
            (f p (AllFit-back done (owed p) (subst AllFit h k)) s))))

pub push_all-Delivers :
    (reads : List (List ℕ)) (p : Place) (rest : List ℕ)
    → AllFit (owed p)
    → Streams p (joined reads ++ rest)
    → Delivers (owed p) rest [] (push_all (at p) reads)
unfolding push_all
push_all-Delivers [] p rest k s = ([], p, refl, refl, refl, s)
push_all-Delivers (input ∷ reads) p rest k s =
    after_read reads (owed p) rest (push (at p) input) (λ q. push_all-Delivers reads q rest) k
      (push-Delivers p input (joined reads ++ rest) k
        (subst (Streams p) (append_assoc input (joined reads) rest) s))
