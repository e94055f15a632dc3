-- ===== src/Transaction.antt =====
-- The atomic multi-range transaction engine (crates/matcha-core/src/transaction.rs).
pub mod Normal
pub mod Chain
pub mod Fixed
pub mod Apply
pub mod Prepared
pub mod Undo
pub mod Replay
use matcha.Common.{
  ℕ, suc, ◌+◌, ◌-◌, ◌%◌, ◌^◌, Bool, true, false, ◌&&◌, Option, none, some, List, [], ◌∷◌, ◌++◌, map,
  min, max, length, ltb, leb, ◌==◌, if◌then◌else◌, u32_mod, u32_max, add_u32,
}
use matcha.Common.Int.{ℤ, pos, ◌+ℤ◌, ◌-ℤ◌, as_u32, as_u64}
use matcha.Coords.{left, right}
use matcha.Patch.{Range, Patch, push}
use matcha.Patch
use matcha.Text.{Splice}
use matcha.Ropey.{Ropey}
use matcha.Buffer.{
  Buffer, normalize_eol, clip_offset, buffer_slice, buffer_edit_many, bump_revision,
}

pub record EditOp : Type 0 where
  pub range : Range
  pub text : List ℕ

pub record Committed : Type 0 where
  pub patch : Patch
  pub inverse : List EditOp
  pub forward : List EditOp

abbrev pub empty_committed : Committed
empty_committed = record { patch = Patch.new; inverse = []; forward = [] }

pub data TransactionError : Type 0 where
  overlap : Range → Range → TransactionError
  would_overflow : ℕ → TransactionError

-- `Result<Committed, TransactionError>`
pub data Outcome : Type 0 where
  ok : Committed → Outcome
  err : TransactionError → Outcome

abbrev pub is_nil : List ℕ → Bool
is_nil [] = true
is_nil (x ∷ t) = false

abbrev pub is_no_op : EditOp → Bool
is_no_op op = (op.range.start == op.range.end) && is_nil op.text

-- A stable sort by start: an op goes before the ones after it that do not start earlier.
unfoldable pub insert_op : EditOp → List EditOp → List EditOp
insert_op op [] = op ∷ []
insert_op op (o ∷ ops) =
    let rest = insert_op op ops in
    if leb op.range.start o.range.start then op ∷ o ∷ ops else o ∷ rest

unfoldable pub sort_ops : List EditOp → List EditOp
sort_ops [] = []
sort_ops (op ∷ ops) = insert_op op (sort_ops ops)

-- The first two neighbours that overlap.
unfoldable pub find_overlap : List EditOp → Option (Range × Range)
find_overlap [] = none
find_overlap (a ∷ []) = none
find_overlap (a ∷ b ∷ ops) =
    let rest = find_overlap (b ∷ ops) in
    if ltb b.range.start a.range.end then some (a.range, b.range) else rest

unfoldable pub length_delta : List EditOp → ℤ
length_delta [] = pos 0
length_delta (op ∷ ops) =
    pos (length op.text) -ℤ (pos op.range.end -ℤ pos op.range.start) +ℤ length_delta ops

unfoldable pub post_len : ℕ → List EditOp → ℕ
post_len current ops = as_u64 (pos current +ℤ length_delta ops)

abbrev pub batch : List EditOp → List Splice
batch = map (λ (op : EditOp). (op.range, op.text))

module _ (R : Ropey) where
  -- Step (1) for one op: `none` drops a no-op.
  unfoldable pub clip_op : Buffer R → EditOp → Option EditOp
  clip_op b op =
      let start = clip_offset R b (min op.range.start op.range.end) left in
      let end = clip_offset R b (max op.range.start op.range.end) right in
      let clipped : EditOp = record {
        range = record { start = start; end = end };
        text = normalize_eol op.text;
      } in
      if is_no_op clipped then none else some clipped

  unfoldable pub clip_ops : Buffer R → List EditOp → List EditOp
  clip_ops b [] = []
  clip_ops b (op ∷ ops) = elim (clip_op b op) [
    | none ↦ clip_ops b ops
    | some clipped ↦ clipped ∷ clip_ops b ops
  ]

  -- Step (4): the forward patch and the inverse ops, chained by the delta so far. `none` is the panic
  -- of a read off a char boundary.
  unfoldable pub chain :
      Buffer R → List EditOp → ℤ → Patch → List EditOp → Option (Patch × List EditOp)
  chain b [] delta patch inverse = some (patch, inverse)
  chain b (op ∷ ops) delta patch inverse =
      let s = op.range.start in
      let e = op.range.end in
      let ns = as_u32 (pos s +ℤ delta) in
      let ne = add_u32 ns (length op.text) in
      elim (buffer_slice R b op.range) [
        | none ↦ none
        | some old_text ↦
            chain b ops (delta +ℤ (pos (length op.text) -ℤ (pos e -ℤ pos s)))
              (push patch (record { old = op.range; new = record { start = ns; end = ne } }))
              (inverse
                ++ (record { range = record { start = ns; end = ne }; text = old_text }) ∷ [])
      ]

  -- Steps (3) to (5), on the sorted ops. `none` is a panic of the rope.
  unfoldable pub commit : Buffer R → List EditOp → Option (Buffer R × Outcome)
  commit b norm = elim (find_overlap norm) [
    | some (first, second) ↦ some (b, err (overlap first second))
    | none ↦
        let len = post_len b.text.len norm in
        if leb u32_max len
        then some (b, err (would_overflow len))
        else elim (chain b norm (pos 0) Patch.new []) [
          | none ↦ none
          | some (patch, inverse) ↦ elim (buffer_edit_many R b (batch norm)) [
            | none ↦ none
            | some b' ↦ some (
              bump_revision R b',
              ok (record { patch = patch; inverse = inverse; forward = norm }),
            )
          ]
        ]
  ]

  unfoldable pub apply : Buffer R → List EditOp → Option (Buffer R × Outcome)
  apply b ops = elim (clip_ops b ops) [
    | [] ↦ some (b, ok empty_committed)
    | op ∷ norm ↦ commit b (sort_ops (op ∷ norm))
  ]
