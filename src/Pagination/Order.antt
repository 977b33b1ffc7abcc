-- ===== src/Pagination/Order.antt =====
-- The order of the reviewer queue (services/platform/src/shaidago/review/queue.py): rows with keys of
-- their own stand in a strict order, which a filter keeps.
use shaidago.Base.{
  ◌≡◌, ◌≢◌, refl, Bool, true, false, ◌&&◌, List, [], ◌∷◌, ◌++◌, All, inl, inr, if◌then◌else◌, arith,
  Bool-cases,
}
use shaidago.Pagination.Queue.{QueueRow, is_after, where_rows, insert_row, order_rows}

abbrev pub Before : QueueRow → QueueRow → Type 0
Before r s = is_after r.created_at r.id s ≡ true

abbrev pub IsOrdered : List QueueRow → Type 0
IsOrdered [] = Unit
IsOrdered (r ∷ rows) = All (Before r) rows × IsOrdered rows

-- No two rows have the same identifier.
abbrev pub IsKeyed : List QueueRow → Type 0
IsKeyed [] = Unit
IsKeyed (r ∷ rows) = All (λ s. s.id ≢ r.id) rows × IsKeyed rows

is_after_trans : (r s u : QueueRow) → Before r s → Before s u → Before r u
is_after_trans r s u h k = ground arith

is_after_asym : (r s : QueueRow) → Before r s → is_after s.created_at s.id r ≡ false
is_after_asym r s h = ground arith

is_after_irrefl : (r : QueueRow) → is_after r.created_at r.id r ≡ false
is_after_irrefl r = ground arith

is_after_total : (r s : QueueRow) → s.id ≢ r.id → is_after r.created_at r.id s ≡ false → Before s r
is_after_total r s other h = ground arith

All-implies {ℓ κ μ} :
    {A : Type ℓ} {P : A → Type κ} {Q : A → Type μ} (xs : List A)
    → ((x : A) → P x → Q x)
    → All P xs
    → All Q xs
All-implies [] f a = tt
All-implies (x ∷ xs) f (p, a) = (f x p, All-implies xs f a)

module _ {κ} (P : QueueRow → Type κ) where
  pub All-where :
      (p : QueueRow → Bool) (rows : List QueueRow) → All P rows → All P (where_rows p rows)
  unfolding where_rows
  All-where p [] a = tt
  All-where p (r ∷ rows) (h, a) = elim (Bool-cases (p r)) [
    | inl kept ↦ rw kept (h, All-where p rows a)
    | inr left ↦ rw left (All-where p rows a)
  ]

  All-insert : (r : QueueRow) (rows : List QueueRow) → P r → All P rows → All P (insert_row r rows)
  unfolding insert_row
  All-insert r [] h a = (h, tt)
  All-insert r (s ∷ rows) h (k, a) = elim (Bool-cases (is_after r.created_at r.id s)) [
    | inl first ↦ rw first (h, (k, a))
    | inr later ↦ rw later (k, All-insert r rows h a)
  ]

  pub All-order : (rows : List QueueRow) → All P rows → All P (order_rows rows)
  unfolding order_rows
  All-order [] a = tt
  All-order (r ∷ rows) (h, a) = All-insert r (order_rows rows) h (All-order rows a)

insert_row-IsOrdered :
    (r : QueueRow) (rows : List QueueRow)
    → IsOrdered rows
    → All (λ s. s.id ≢ r.id) rows
    → IsOrdered (insert_row r rows)
unfolding insert_row
insert_row-IsOrdered r [] o a = (tt, tt)
insert_row-IsOrdered r (s ∷ rows) (after, o) (other, a) =
    elim (Bool-cases (is_after r.created_at r.id s)) [
      | inl first ↦
          rw first
            ((first, All-implies rows (λ u k. is_after_trans r s u first k) after), (after, o))
      | inr later ↦ rw later (
        All-insert (Before s) r rows (is_after_total r s other later) after,
        insert_row-IsOrdered r rows o a,
      )
    ]

pub order_rows-IsOrdered : (rows : List QueueRow) → IsKeyed rows → IsOrdered (order_rows rows)
unfolding order_rows
order_rows-IsOrdered [] keyed = tt
order_rows-IsOrdered (r ∷ rows) (other, keyed) =
    insert_row-IsOrdered r (order_rows rows) (order_rows-IsOrdered rows keyed)
      (All-order (λ s. s.id ≢ r.id) rows other)

insert_row-front :
    (r : QueueRow) (rows : List QueueRow) → All (Before r) rows → insert_row r rows ≡ r ∷ rows
unfolding insert_row
insert_row-front r [] a = refl
insert_row-front r (s ∷ rows) (h, a) = rw h refl

where_rows-insert_row :
    (p : QueueRow → Bool) (r : QueueRow) (rows : List QueueRow)
    → IsOrdered rows
    → where_rows p (insert_row r rows)
      ≡ (if p r then insert_row r (where_rows p rows) else where_rows p rows)
unfolding where_rows insert_row
where_rows-insert_row p r [] o = refl
where_rows-insert_row p r (s ∷ rows) (after, o) =
    let rest = where_rows-insert_row p r rows o in
    elim (Bool-cases (is_after r.created_at r.id s)) [
      | inl first ↦
          let front = insert_row-front r (where_rows p rows) (
            All-where (Before r) p rows
              (All-implies rows (λ u k. is_after_trans r s u first k) after)) in
          elim (Bool-cases (p s)) [
            | inl kept ↦ rw (kept, first, kept) refl
            | inr left ↦ rw (first, left, front) refl
          ]
      | inr later ↦ elim (Bool-cases (p s)) [
        | inl kept ↦
            rw (later, kept, rest, later)
              (elim (Bool-cases (p r)) [ inl mine ↦ rw mine refl | inr other ↦ rw other refl ])
        | inr left ↦ rw (later, left) rest
      ]
    ]

-- A filter and the order can be taken one before the other.
pub where_rows-order_rows :
    (p : QueueRow → Bool) (rows : List QueueRow)
    → IsKeyed rows
    → order_rows (where_rows p rows) ≡ where_rows p (order_rows rows)
unfolding where_rows order_rows
where_rows-order_rows p [] keyed = refl
where_rows-order_rows p (r ∷ rows) (other, keyed) =
    let inserted = where_rows-insert_row p r (order_rows rows) (order_rows-IsOrdered rows keyed) in
    let rest = where_rows-order_rows p rows keyed in
    elim (Bool-cases (p r)) [
      | inl kept ↦ rw (inserted, kept, rest) refl
      | inr left ↦ rw (inserted, left, rest) refl
    ]

pub where_rows-both :
    (p q : QueueRow → Bool) (rows : List QueueRow)
    → where_rows (λ r. p r && q r) rows ≡ where_rows q (where_rows p rows)
unfolding where_rows
where_rows-both p q [] = refl
where_rows-both p q (r ∷ rows) =
    let rest = where_rows-both p q rows in
    elim (Bool-cases (p r)) [ inl yes' ↦ rw (yes', rest) refl | inr no' ↦ rw (no', rest) refl ]

where_rows-all :
    (l : QueueRow) (rows : List QueueRow)
    → All (Before l) rows
    → where_rows (is_after l.created_at l.id) rows ≡ rows
unfolding where_rows
where_rows-all l [] a = refl
where_rows-all l (r ∷ rows) (h, a) = rw (h, where_rows-all l rows a) refl

pub All-behind {κ} :
    (P : QueueRow → Type κ) (front back : List QueueRow) (l : QueueRow)
    → All P (front ++ l ∷ back)
    → P l
All-behind P [] back l (h, a) = h
All-behind P (r ∷ front) back l (h, a) = All-behind P front back l a

-- The rows after one that stands in an ordered list are those that stand behind it.
pub where_rows-behind :
    (front back : List QueueRow) (l : QueueRow)
    → IsOrdered (front ++ l ∷ back)
    → where_rows (is_after l.created_at l.id) (front ++ l ∷ back) ≡ back
unfolding where_rows
where_rows-behind [] back l (after, o) = rw (is_after_irrefl l, where_rows-all l back after) refl
where_rows-behind (r ∷ front) back l (after, o) =
    rw (is_after_asym r l (All-behind (Before r) front back l after))
      (where_rows-behind front back l o)
