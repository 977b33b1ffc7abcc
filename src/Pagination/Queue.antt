-- ===== src/Pagination/Queue.antt =====
-- The reviewer queue (services/platform/src/shaidago/review/queue.py and the route `queue` of
-- services/platform/src/shaidago/api/v1/reviewer_reports.py): the reports that a filter admits, oldest first,
-- page by page. A row keeps what the query reads; what it only shows is left out.
use shaidago.Base.{
  ℕ, ◌+◌, Bool, true, false, ◌&&◌, ◌||◌, List, [], ◌∷◌, Option, none, some, Result, ok, err, ◌>>=◌,
  any, ltb, take, ◌==◌, if◌then◌else◌, Text, same_text,
}
use shaidago.Problems.{Problem}
use shaidago.Pagination.{
  Codec, CursorPosition, SortValue, of_text, of_integer, Page, clamp_page_size, decode_cursor,
  build_page,
}

pub record QueueRow : Type 0 where
  pub id : ℕ
  pub created_at : ℕ
  pub status : Text
  pub concern_category : Text
  pub risk_level : Text
  pub project_slug : Text

pub record QueueFilters : Type 0 where
  pub statuses : List Text
  pub risk_level : Option Text
  pub concern_category : Option Text
  pub project_slug : Option Text

abbrev pub no_status : List Text → Bool
no_status [] = true
no_status (s ∷ ss) = false

abbrev pub is_wanted : Option Text → Text → Bool
is_wanted none value = true
is_wanted (some wanted) value = same_text value wanted

-- The filters of `_QUEUE`.
abbrev pub is_admitted : QueueFilters → QueueRow → Bool
is_admitted f r =
    (no_status f.statuses || any (same_text r.status) f.statuses)
    && is_wanted f.risk_level r.risk_level
    && is_wanted f.concern_category r.concern_category
    && is_wanted f.project_slug r.project_slug

-- `(t, i) < (r.created_at, r.id)`
abbrev pub is_after : ℕ → ℕ → QueueRow → Bool
is_after t i r = ltb t r.created_at || (t == r.created_at && ltb i r.id)

abbrev pub is_behind : Option (ℕ × ℕ) → QueueRow → Bool
is_behind none r = true
is_behind (some (t, i)) r = is_after t i r

unfoldable pub where_rows : (QueueRow → Bool) → List QueueRow → List QueueRow
where_rows p [] = []
where_rows p (r ∷ rows) = if p r then r ∷ where_rows p rows else where_rows p rows

unfoldable pub insert_row : QueueRow → List QueueRow → List QueueRow
insert_row r [] = r ∷ []
insert_row r (s ∷ rows) =
    let rest = insert_row r rows in if is_after r.created_at r.id s then r ∷ s ∷ rows else s ∷ rest

-- `ORDER BY r.created_at ASC, r.id ASC`
unfoldable pub order_rows : List QueueRow → List QueueRow
unfolding insert_row
order_rows [] = []
order_rows (r ∷ rows) = insert_row r (order_rows rows)

unfoldable pub list_queue : QueueFilters → ℕ → Option (ℕ × ℕ) → List QueueRow → List QueueRow
unfolding where_rows order_rows
list_queue filters limit after rows =
    take limit (order_rows (where_rows (λ r. is_admitted filters r && is_behind after r) rows))

pub record QueueParams : Type 0 where
  pub filters : QueueFilters
  pub limit : Option ℕ
  pub cursor : Option Text

-- What the route raises: a problem, or the error of `datetime.fromisoformat`.
pub data QueueError : Type 0 where
  problem : Problem → QueueError
  value_error : QueueError

-- What the route takes from elsewhere: the digest of a scope and the ISO form of a time.
pub record Route : Type 0 where
  pub codec : Codec
  pub key : Text
  pub scope_of : QueueFilters → Text
  pub isoformat : ℕ → Text
  pub fromisoformat : Text → Option ℕ

module _ (route : Route) where
  abbrev pub position_of : QueueRow → CursorPosition
  position_of r = record { sort_value = of_text (route.isoformat r.created_at); row_id = r.id }

  abbrev pub str_sort_value : SortValue → Text
  str_sort_value (of_text t) = t
  str_sort_value (of_integer n) = route.codec.str_integer n

  abbrev pub pair_of : ℕ → Option ℕ → Result QueueError (Option (ℕ × ℕ))
  pair_of i none = err value_error
  pair_of i (some t) = ok (some (t, i))

  abbrev pub after_position : Result Problem CursorPosition → Result QueueError (Option (ℕ × ℕ))
  after_position (err p) = err (problem p)
  after_position (ok position) =
      pair_of position.row_id (route.fromisoformat (str_sort_value position.sort_value))

  abbrev pub after_cursor : Text → Option Text → Result QueueError (Option (ℕ × ℕ))
  after_cursor scope none = ok none
  after_cursor scope (some token) = after_position (decode_cursor route.codec route.key scope token)

  -- The route, on the rows of its one query.
  unfoldable pub queue : QueueParams → List QueueRow → Result QueueError (Page QueueRow)
  unfolding clamp_page_size decode_cursor build_page list_queue
  queue params rows = do
    after ← after_cursor (route.scope_of params.filters) params.cursor
    let page_size = clamp_page_size params.limit
    ok (
        build_page route.codec (list_queue params.filters (page_size + 1) after rows) page_size
          position_of route.key (route.scope_of params.filters))
