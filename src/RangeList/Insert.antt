-- ===== src/RangeList/Insert.antt =====
-- Where InsertRangeCodeList puts a range.
use mathlib.Core.List.{Perm, perm_middle}
use riverpass.Prelude.{
  ◌≡◌, refl, ap, ◌⊎◌, inl, inr, false, Bool-cases, none, some, List, [], ◌∷◌, ◌++◌, arith, All,
  append_assoc,
}
use riverpass.Prelude.Int.{pos, leb_ℤ, ◌≤ℤ◌, ◌<ℤ◌}
use riverpass.RangeCode.{RangeCode}
use riverpass.RangeList.{
  is_range_collision, dummy, insert_after, remove_front, insert_range_code_list,
}
use riverpass.RangeList.Collision.{IsNonempty, Apart, collision→Apart}

-- Each range ends at or before the start of every later one.
abbrev pub IsOrdered : List RangeCode → Type 0
IsOrdered [] = Unit {0}
IsOrdered (h ∷ hs) = All (λ k. h.end ≤ℤ k.start) hs × IsOrdered hs

abbrev Later : RangeCode → List RangeCode → Type 0
Later rc = All (λ k. rc.start <ℤ k.end)

-- The walk stopped at `h`: `rc` stands behind it, and every later range ends behind `rc.start`.
record Place (rc : RangeCode) (hs hs' : List RangeCode) : Type 0 where
  front : List RangeCode
  stop : RangeCode
  back : List RangeCode
  before : hs ≡ front ++ stop ∷ back
  after : hs' ≡ front ++ stop ∷ rc ∷ back
  ends : stop.end ≤ℤ rc.start
  later : Later rc back

Place-cons :
    (h rc : RangeCode) (hs hs' : List RangeCode) → Place rc hs hs' → Place rc (h ∷ hs) (h ∷ hs')
Place-cons h rc hs hs' p = record {
  front = h ∷ p.front;
  stop = p.stop;
  back = p.back;
  before = ap (◌∷◌ h) p.before;
  after = ap (◌∷◌ h) p.after;
  ends = p.ends;
  later = p.later;
}

insert_after-cases :
    (rc : RangeCode) (hs : List RangeCode)
    → ((insert_after rc hs ≡ none) × Later rc hs)
      ⊎ ((hs' : List RangeCode) × (insert_after rc hs ≡ some hs') × Place rc hs hs')
unfolding insert_after
insert_after-cases rc [] = inl (refl, tt)
insert_after-cases rc (h ∷ hs) = elim (insert_after-cases rc hs) [
  | inr (hs', e, p) ↦ inr (h ∷ hs', rw (e, insert_after), Place-cons h rc hs hs' p)
  | inl (e, l) ↦ elim (Bool-cases (leb_ℤ h.end rc.start)) [
    | inl t ↦ inr (
      h ∷ rc ∷ hs,
      rw (e, insert_after) (ground arith),
      record {
        front = [];
        stop = h;
        back = hs;
        before = refl;
        after = refl;
        ends = ground arith;
        later = l;
      },
    )
    | inr t ↦ inl (rw (e, insert_after) (ground arith), (ground arith, l))
  ]
]

-- The outcome: `rc` stands between the ranges that end at or before its start and the others.
record Outcome (rc : RangeCode) (hs out : List RangeCode) : Type 0 where
  left : List RangeCode
  right : List RangeCode
  before : hs ≡ left ++ right
  after : out ≡ left ++ rc ∷ right
  ends :
      (left ≡ [])
      ⊎ ((g : List RangeCode) × (h : RangeCode) × (left ≡ g ++ h ∷ []) × (h.end ≤ℤ rc.start))
  later : Later rc right

Place-Outcome :
    (rc : RangeCode) (hs hs' : List RangeCode)
    → Place rc (dummy ∷ hs) hs'
    → Outcome rc hs (remove_front hs')
unfolding remove_front
Place-Outcome rc hs hs' p = go p.front p.before p.after
  where
    go :
        (f : List RangeCode)
        → dummy ∷ hs ≡ f ++ p.stop ∷ p.back
        → hs' ≡ f ++ p.stop ∷ rc ∷ p.back
        → Outcome rc hs (remove_front hs')
    go [] b a = record {
      left = [];
      right = p.back;
      before = cc;
      after = rw a;
      ends = inl refl;
      later = p.later;
    }
    go (d ∷ f) b a = record {
      left = f ++ p.stop ∷ [];
      right = p.back;
      before = rw append_assoc (cc);
      after = rw (a, append_assoc);
      ends = inr (f, p.stop, refl, p.ends);
      later = p.later;
    }

insert-Outcome :
    (rc : RangeCode) (hs : List RangeCode)
    → pos 0 ≤ℤ rc.start
    → Outcome rc hs (insert_range_code_list hs rc)
unfolding insert_range_code_list
insert-Outcome rc hs h = elim (insert_after-cases rc (dummy ∷ hs)) [
  | inl (e, l) ↦ absurd (unfold dummy in omega arith)
  | inr (hs', e, p) ↦ rw (e, insert_range_code_list) (Place-Outcome rc hs hs' p)
]

All-at :
    (P : RangeCode → Type 0) (g : List RangeCode) (h : RangeCode) (right : List RangeCode)
    → All P ((g ++ h ∷ []) ++ right)
    → P h
All-at P [] h right a = a.0
All-at P (k ∷ g) h right a = All-at P g h right a.1

All-left :
    (P : RangeCode → Type 0) (left right : List RangeCode) → All P (left ++ right) → All P left
All-left P [] right a = tt
All-left P (k ∷ left) right a = (a.0, All-left P left right a.1)

All-right :
    (P : RangeCode → Type 0) (left right : List RangeCode) → All P (left ++ right) → All P right
All-right P [] right a = a
All-right P (k ∷ left) right a = All-right P left right a.1

All-insert :
    (P : RangeCode → Type 0) (left : List RangeCode) (rc : RangeCode) (right : List RangeCode)
    → All P (left ++ right)
    → P rc
    → All P (left ++ rc ∷ right)
All-insert P [] rc right a p = (p, a)
All-insert P (k ∷ left) rc right a p = (a.0, All-insert P left rc right a.1 p)

module _ (rc : RangeCode) where
  -- In an ordered list all that stands before a range that ends by `rc.start` ends by it too.
  ends-All :
      (g : List RangeCode) (h : RangeCode) (right : List RangeCode)
      → IsOrdered ((g ++ h ∷ []) ++ right)
      → All IsNonempty ((g ++ h ∷ []) ++ right)
      → h.end ≤ℤ rc.start
      → All (λ k. k.end ≤ℤ rc.start) (g ++ h ∷ [])
  ends-All [] h right o n e = (e, tt)
  ends-All (k ∷ g) h right o n e = (
    omega (arith, All-at (λ j. k.end ≤ℤ j.start) g h right o.0, All-at IsNonempty g h right n.1),
    ends-All g h right o.1 n.1 e,
  )

  Later-All :
      (right : List RangeCode)
      → IsNonempty rc
      → All IsNonempty right
      → All (λ k. Apart k rc) right
      → Later rc right
      → All (λ k. rc.end ≤ℤ k.start) right
  Later-All [] m n a l = tt
  Later-All (k ∷ right) m n a l = (omega arith, Later-All right m n.1 a.1 l.1)

  insert-IsOrdered :
      (left right : List RangeCode)
      → IsOrdered (left ++ right)
      → All (λ k. k.end ≤ℤ rc.start) left
      → All (λ k. rc.end ≤ℤ k.start) right
      → IsOrdered (left ++ rc ∷ right)
  insert-IsOrdered [] right o e l = (l, o)
  insert-IsOrdered (k ∷ left) right o e l = (
    All-insert (λ j. k.end ≤ℤ j.start) left rc right o.0 e.0,
    insert-IsOrdered left right o.1 e.1 l,
  )

  Outcome-IsOrdered :
      (hs out : List RangeCode)
      → Outcome rc hs out
      → IsNonempty rc
      → All IsNonempty hs
      → IsOrdered hs
      → All (λ k. Apart k rc) hs
      → IsOrdered out
  Outcome-IsOrdered hs out p m n o a = rw p.after (
      insert-IsOrdered p.left p.right (rw p.before at o) front (
        Later-All p.right m (All-right IsNonempty p.left p.right (rw p.before at n))
          (All-right (λ k. Apart k rc) p.left p.right (rw p.before at a)) p.later))
    where
      front : All (λ k. k.end ≤ℤ rc.start) p.left
      front = elim p.ends [
        | inl e ↦ rw e tt
        | inr (g, h, e, le) ↦
            rw e (ends-All g h p.right (rw (← e, ← p.before) o) (rw (← e, ← p.before) n) le)
      ]

Outcome-Perm : (rc : RangeCode) (hs out : List RangeCode) → Outcome rc hs out → Perm out (rc ∷ hs)
Outcome-Perm rc hs out p = rw (p.after, p.before) (perm_middle p.left p.right)

-- A range that is not empty, at a start of 0 or more, that does not collide with an ordered list
-- of ranges, none of them empty, is inserted so that the list stays ordered, and the list gains the
-- new range and nothing else.
pub insert_range_code_list-IsOrdered :
    (hs : List RangeCode) (rc : RangeCode)
    → pos 0 ≤ℤ rc.start
    → IsNonempty rc
    → All IsNonempty hs
    → IsOrdered hs
    → is_range_collision hs rc ≡ false
    → IsOrdered (insert_range_code_list hs rc) × Perm (insert_range_code_list hs rc) (rc ∷ hs)
insert_range_code_list-IsOrdered hs rc at m n o c =
    let p = insert-Outcome rc hs at in
    (Outcome-IsOrdered rc hs _ p m n o (collision→Apart hs rc c), Outcome-Perm rc hs _ p)
