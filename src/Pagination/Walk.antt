-- ===== src/Pagination/Walk.antt =====
-- Reading the reviewer queue page by page (services/platform/src/shaidago/api/v1/reviewer_reports.py): every
-- cursor that a page gives out is taken back, and the pages together are the whole queue.
use shaidago.Base.{
  ℕ, zero, suc, ◌+◌, ◌≤◌, ◌<◌, ◌≡◌, ◌≢◌, refl, sym, ap, subst, ◌∙◌, Bool, List, [], ◌∷◌, ◌++◌, All,
  Option, none, some, Result, ok, ◌>>=◌, inl, inr, ltb, length, take, drop, if◌then◌else◌, Text,
  take-all, take-drop, arith, Bool-cases,
}
use shaidago.Pagination.{
  CursorPosition, Page, max_cursor_chars, max_page_size, clamp_page_size, encode_cursor, cursor_of,
  last_position, build_page,
}
use shaidago.Pagination.Cursors.{IsLawful, decode_cursor-encode_cursor}
use shaidago.Pagination.Queue.{
  QueueRow, QueueFilters, QueueParams, QueueError, Route, is_admitted, is_after, is_behind,
  where_rows, order_rows, list_queue, position_of, after_cursor, queue,
}
use shaidago.Pagination.Order.{
  IsOrdered, IsKeyed, All-where, All-order, All-behind, order_rows-IsOrdered, where_rows-order_rows,
  where_rows-both, where_rows-behind,
}

-- A page has room for at least one row and for at most fifty.
pub clamp_page_size-bounds :
    (requested : Option ℕ)
    → (1 ≤ clamp_page_size requested) × (clamp_page_size requested ≤ max_page_size)
unfolding clamp_page_size
clamp_page_size-bounds none = (omega arith, omega arith)
clamp_page_size-bounds (some n) = (ground arith, ground arith)

take-take {ℓ} : {A : Type ℓ} (n : ℕ) (xs : List A) → take n (take (suc n) xs) ≡ take n xs
take-take zero xs = refl
take-take (suc n) [] = refl
take-take (suc n) (x ∷ xs) = ap (λ t. x ∷ t) (take-take n xs)

length-take_more {ℓ} :
    {A : Type ℓ} (n : ℕ) (xs : List A) → ltb n (length (take (suc n) xs)) ≡ ltb n (length xs)
length-take_more zero [] = refl
length-take_more zero (x ∷ xs) = ground arith
length-take_more (suc n) [] = refl
length-take_more (suc n) (x ∷ xs) = ground (arith, length-take_more n xs)

length-take_within {ℓ} : {A : Type ℓ} (n : ℕ) (xs : List A) → length (take n xs) ≤ n
length-take_within zero xs = omega arith
length-take_within (suc n) [] = omega arith
length-take_within (suc n) (x ∷ xs) = omega (arith, length-take_within n xs)

length-drop {ℓ} :
    {A : Type ℓ} (n : ℕ) (xs : List A) → 1 ≤ n → 1 ≤ length xs → length (drop n xs) < length xs
length-drop zero xs h k = absurd (omega arith)
length-drop (suc n) [] h k = absurd (omega arith)
length-drop (suc zero) (x ∷ xs) h k = omega arith
length-drop (suc (suc n)) (x ∷ []) h k = omega arith
length-drop (suc (suc n)) (x ∷ y ∷ xs) h k =
    omega (arith, length-drop (suc n) (y ∷ xs) (omega arith) (omega arith))

-- A page that is followed by another has a last row.
split_last :
    (position : QueueRow → CursorPosition) (rows : List QueueRow)
    → 1 ≤ length rows
    → (front : List QueueRow) × (l : QueueRow) × (rows ≡ front ++ l ∷ [])
      × (last_position position rows ≡ some (position l))
unfolding last_position
split_last position [] h = absurd (omega arith)
split_last position (x ∷ []) h = ([], x, refl, refl)
split_last position (x ∷ y ∷ rows) h =
    let (front, l, split, is_last) = split_last position (y ∷ rows) (omega arith) in
    (x ∷ front, l, ap (λ t. x ∷ t) split, is_last)

append_assoc {ℓ} : {A : Type ℓ} (xs ys zs : List A) → (xs ++ ys) ++ zs ≡ xs ++ (ys ++ zs)
append_assoc [] ys zs = refl
append_assoc (x ∷ xs) ys zs = ap (λ t. x ∷ t) (append_assoc xs ys zs)

append_nil {ℓ} : {A : Type ℓ} (xs : List A) → xs ++ [] ≡ xs
append_nil [] = refl
append_nil (x ∷ xs) = ap (λ t. x ∷ t) (append_nil xs)

length-take_some {ℓ} :
    {A : Type ℓ} (n : ℕ) (xs : List A) → 1 ≤ n → 1 ≤ length xs → 1 ≤ length (take n xs)
length-take_some zero xs h k = absurd (omega arith)
length-take_some (suc n) [] h k = absurd (omega arith)
length-take_some (suc n) (x ∷ xs) h k = omega arith

abbrev pub flatten {ℓ} : {A : Type ℓ} → List (List A) → List A
flatten [] = []
flatten (p ∷ ps) = p ++ flatten ps

-- A caller that asks for page after page, as long as there is a cursor, and keeps the rows.
unfoldable pub walk :
    Route → ℕ → QueueParams → List QueueRow → Result QueueError (List (List QueueRow))
unfolding queue
walk route zero params rows = ok []
walk route (suc fuel) params rows = do
  page ← queue route params rows
  rest ← elim page.next_cursor [
    | none ↦ ok []
    | some token ↦ walk route fuel (record params { cursor = some token }) rows
  ]
  ok (page.items ∷ rest)

-- The whole queue under a filter.
abbrev pub admitted : QueueFilters → List QueueRow → List QueueRow
admitted filters rows = order_rows (where_rows (is_admitted filters) rows)

list_queue-take :
    (filters : QueueFilters) (n : ℕ) (after : Option (ℕ × ℕ)) (rows : List QueueRow)
    → IsKeyed (where_rows (is_admitted filters) rows)
    → list_queue filters n after rows
      ≡ take n (where_rows (is_behind after) (admitted filters rows))
unfolding list_queue
list_queue-take filters n after rows keyed = ap (take n) (
    ap order_rows (where_rows-both (is_admitted filters) (is_behind after) rows)
    ∙ where_rows-order_rows (is_behind after) (where_rows (is_admitted filters) rows) keyed)

IsKeyed-where :
    (p : QueueRow → Bool) (rows : List QueueRow) → IsKeyed rows → IsKeyed (where_rows p rows)
unfolding where_rows
IsKeyed-where p [] keyed = tt
IsKeyed-where p (r ∷ rows) (other, keyed) = elim (Bool-cases (p r)) [
  | inl kept ↦ rw kept (All-where (λ s. s.id ≢ r.id) p rows other, IsKeyed-where p rows keyed)
  | inr left ↦ rw left (IsKeyed-where p rows keyed)
]

where_rows-none : (rows : List QueueRow) → where_rows (is_behind none) rows ≡ rows
unfolding where_rows
where_rows-none [] = refl
where_rows-none (r ∷ rows) = ap (λ t. r ∷ t) (where_rows-none rows)

-- What the route takes from elsewhere is what it is documented to be.
pub record IsLawfulRoute (route : Route) : Type 0 where
  pub lawful : IsLawful route.codec
  pub times : (t : ℕ) → route.fromisoformat (route.isoformat t) ≡ some t

-- The cursor of a row is short enough to be taken back.
abbrev pub IsShort : Route → QueueFilters → QueueRow → Type 0
IsShort route filters r =
    length (encode_cursor route.codec route.key (route.scope_of filters) (position_of route r))
    ≤ max_cursor_chars

module _ (route : Route) (lawful : IsLawfulRoute route) (filters : QueueFilters)
    (limit : Option ℕ) where
  after_cursor-row :
      (l : QueueRow)
      → IsShort route filters l
      → after_cursor route (route.scope_of filters) (
          some (encode_cursor route.codec route.key (route.scope_of filters) (position_of route l)))
        ≡ ok (some (l.created_at, l.id))
  after_cursor-row l short =
      rw
        (
          decode_cursor-encode_cursor route.codec lawful.lawful route.key (route.scope_of filters)
              (position_of route l) short,
          lawful.times l.created_at,
        )
        refl

  abbrev pub page_size : ℕ
  page_size = clamp_page_size limit

  abbrev pub params : Option Text → QueueParams
  params cursor = record { filters = filters; limit = limit; cursor = cursor }

  -- The page of what is left.
  abbrev page_of : List QueueRow → Page QueueRow
  page_of xs = record {
    items = take page_size xs;
    next_cursor =
        if ltb page_size (length xs)
        then cursor_of route.codec route.key (route.scope_of filters)
            (last_position (position_of route) (take page_size xs))
        else none;
  }

  build_page-more :
      (xs : List QueueRow)
      → build_page route.codec
          (take (page_size + 1) xs)
          page_size
          (position_of route)
          route.key
          (route.scope_of filters)
        ≡ page_of xs
  unfolding build_page
  build_page-more xs =
      let more : clamp_page_size limit + 1 ≡ suc (clamp_page_size limit) = omega arith in
      rw (more, take-take (clamp_page_size limit) xs, length-take_more (clamp_page_size limit) xs)
        refl

  queue-page :
      (rows xs : List QueueRow) (cursor : Option Text) (after : Option (ℕ × ℕ))
      → IsKeyed rows
      → after_cursor route (route.scope_of filters) cursor ≡ ok after
      → where_rows (is_behind after) (admitted filters rows) ≡ xs
      → queue route (params cursor) rows ≡ ok (page_of xs)
  unfolding queue
  queue-page rows xs cursor after keyed decoded left =
      let keyed' = IsKeyed-where (is_admitted filters) rows keyed in
      let listed : list_queue filters (clamp_page_size limit + 1) after rows
          ≡ take (clamp_page_size limit + 1) xs =
        list_queue-take filters (clamp_page_size limit + 1) after rows keyed'
        ∙ ap (take (clamp_page_size limit + 1)) left in
      rw (decoded, listed) (ap ok (build_page-more xs))

  -- The pages that a caller gets, and what they are together.
  abbrev pub Together : Result QueueError (List (List QueueRow)) → List QueueRow → Type 0
  Together r xs =
      (pages : List (List QueueRow)) × (r ≡ ok pages)
      × (flatten pages ≡ xs)
      × All (λ page. length page ≤ page_size) pages

  -- What is left behind the last row of a page, which is a row of the queue.
  rows-behind :
      (rows done xs front : List QueueRow) (l : QueueRow)
      → All (IsShort route filters) (admitted filters rows)
      → IsOrdered (admitted filters rows)
      → admitted filters rows ≡ done ++ xs
      → take page_size xs ≡ front ++ l ∷ []
      → (where_rows (is_behind (some (l.created_at, l.id))) (admitted filters rows)
          ≡ drop page_size xs)
        × IsShort route filters l
  rows-behind rows done xs front l short ordered whole split =
      let rest = drop page_size xs in
      let parts : admitted filters rows ≡ (done ++ front) ++ l ∷ rest =
        whole
        ∙ ap (λ t. done ++ t)
            (sym (take-drop page_size xs)
              ∙ ap (λ t. t ++ rest) split
              ∙ append_assoc front (l ∷ []) rest)
        ∙ sym (append_assoc done front (l ∷ rest)) in
      (
        ap (where_rows (is_after l.created_at l.id)) parts
            ∙ where_rows-behind (done ++ front) rest l (subst IsOrdered parts ordered),
        All-behind (IsShort route filters) (done ++ front) rest l
            (subst (All (IsShort route filters)) parts short),
      )

  walk-Together :
      (rows : List QueueRow)
      → IsKeyed rows
      → All (IsShort route filters) (admitted filters rows)
      → IsOrdered (admitted filters rows)
      → (fuel : ℕ) (done xs : List QueueRow) (cursor : Option Text) (after : Option (ℕ × ℕ))
      → after_cursor route (route.scope_of filters) cursor ≡ ok after
      → where_rows (is_behind after) (admitted filters rows) ≡ xs
      → admitted filters rows ≡ done ++ xs
      → length xs < fuel
      → Together (walk route fuel (params cursor) rows) xs
  unfolding walk
  walk-Together rows keyed short ordered zero done xs cursor after decoded left whole enough =
      absurd (omega arith)
  walk-Together rows keyed short ordered (suc fuel) done xs cursor after decoded left whole enough =
      let page = queue-page rows xs cursor after keyed decoded left in
      let within = length-take_within page_size xs in
      let room = (clamp_page_size-bounds limit).0 in
      elim (Bool-cases (ltb page_size (length xs))) [
        | inr last ↦
            let all_taken : take page_size xs ≡ xs = take-all page_size xs (ground arith) in
            (
              take page_size xs ∷ [],
              rw (page, last) refl,
              append_nil (take page_size xs) ∙ all_taken,
              (within, tt),
            )
        | inl more ↦
            let some_left : 1 ≤ length xs = ground arith in
            let (front, l, split, is_last) =
              split_last (position_of route) (take page_size xs)
                (length-take_some page_size xs room some_left) in
            let (behind, its) = rows-behind rows done xs front l short ordered whole split in
            let further : admitted filters rows ≡ (done ++ take page_size xs) ++ drop page_size xs =
              whole
              ∙ ap (λ t. done ++ t) (sym (take-drop page_size xs))
              ∙ sym (append_assoc done (take page_size xs) (drop page_size xs)) in
            let (pages, walked, together, all_within) =
              walk-Together rows keyed short ordered fuel (done ++ take page_size xs)
                (drop page_size xs)
                (some (
                  encode_cursor route.codec route.key (route.scope_of filters)
                    (position_of route l)))
                (some (l.created_at, l.id)) (after_cursor-row l its) behind further
                (omega (arith, length-drop page_size xs room some_left)) in
            (
              take page_size xs ∷ pages,
              rw (page, more, is_last, walked) refl,
              ap (λ t. take page_size xs ++ t) together ∙ take-drop page_size xs,
              (within, all_within),
            )
      ]

  -- A caller that follows the cursors from the first page on gets, in pages of at most the clamped
  -- size, every report that the filter admits, once and oldest first, and no request fails: while the
  -- table stays as it is, its rows have keys of their own, each row's cursor is short enough to
  -- be taken back, and the caller asks often enough.
  pub queue-walk :
      (rows : List QueueRow) (fuel : ℕ)
      → IsKeyed rows
      → All (IsShort route filters) rows
      → length (admitted filters rows) < fuel
      → Together (walk route fuel (params none) rows) (admitted filters rows)
  queue-walk rows fuel keyed short enough =
      walk-Together rows keyed
        (All-order (IsShort route filters) (where_rows (is_admitted filters) rows)
          (All-where (IsShort route filters) (is_admitted filters) rows short))
        (order_rows-IsOrdered (where_rows (is_admitted filters) rows)
          (IsKeyed-where (is_admitted filters) rows keyed))
        fuel [] (admitted filters rows) none none refl (where_rows-none (admitted filters rows))
        refl enough
