-- ===== src/Pagination/Examples.antt =====
-- Cursors and pages of a queue of three reports (services/platform/src/shaidago/shared/pagination.py).
use shaidago.Base.{
  ℕ, ◌≤◌, ◌<◌, ◌≡◌, refl, List, [], ◌∷◌, All, Option, none, some, ok, err, length, Text, codes,
  arith,
}
use shaidago.Problems.{invalid_cursor}
use shaidago.Pagination.{
  CursorPosition, of_text, max_cursor_chars, encode_cursor, decode_cursor, decode, b64, unb64,
  rstrip_pads, pads, position_in,
}
use shaidago.Pagination.Cursors.{Genuine, decode_cursor-encode_cursor, decode_cursor-Genuine}
use shaidago.Pagination.Queue.{QueueRow, QueueFilters, Route, where_rows, insert_row, order_rows}
use shaidago.Pagination.Order.{IsKeyed}
use shaidago.Pagination.Walk.{IsLawfulRoute, IsShort, Together, admitted, walk, queue-walk, params}
use shaidago.Pagination.Toy.{toy, toy-IsLawful}

abbrev here : CursorPosition
here = record { sort_value = of_text (codes "b"); row_id = 2 }

abbrev token : Text
token = encode_cursor toy [] (codes "q") here

token_is_short : length token ≤ max_cursor_chars
unfolding encode_cursor b64 rstrip_pads pads
token_is_short = ground arith

decode_cursor-encode_cursor_example : decode_cursor toy [] (codes "q") token ≡ ok here
decode_cursor-encode_cursor_example =
    decode_cursor-encode_cursor toy toy-IsLawful [] (codes "q") here token_is_short

decode_cursor-Genuine_example : Genuine toy [] (codes "q") token here
decode_cursor-Genuine_example =
    decode_cursor-Genuine toy [] (codes "q") token decode_cursor-encode_cursor_example

other_scope_is_refused : decode_cursor toy [] (codes "other") token ≡ err invalid_cursor
unfolding decode_cursor decode encode_cursor b64 unb64 rstrip_pads pads position_in
other_scope_is_refused = refl

abbrev time_in : Text → Option ℕ
time_in (t ∷ []) = some t
time_in _ = none

abbrev route : Route
route = record {
  codec = toy;
  key = [];
  scope_of = λ filters. [];
  isoformat = λ t. t ∷ [];
  fromisoformat = time_in;
}

abbrev row : ℕ → ℕ → Text → QueueRow
row i t risk = record {
  id = i;
  created_at = t;
  status = codes "received";
  concern_category = codes "road";
  risk_level = risk;
  project_slug = codes "bridge";
}

abbrev rows : List QueueRow
rows =
    row 1 9 (codes "low")
    ∷ row 3 7 (codes "low")
    ∷ row 2 7 (codes "low")
    ∷ row 4 8 (codes "high")
    ∷ []

abbrev low : QueueFilters
low = record {
  statuses = [];
  risk_level = some (codes "low");
  concern_category = none;
  project_slug = none;
}

IsKeyed-rows : IsKeyed rows
IsKeyed-rows = (
  (ground arith, (ground arith, (ground arith, tt))),
  ((ground arith, (ground arith, tt)), ((ground arith, tt), (tt, tt))),
)

IsShort-rows : All (IsShort route low) rows
unfolding encode_cursor b64 rstrip_pads pads
IsShort-rows = (ground arith, (ground arith, (ground arith, (ground arith, tt))))

oldest_first :
    admitted low rows ≡ row 2 7 (codes "low") ∷ row 3 7 (codes "low") ∷ row 1 9 (codes "low") ∷ []
unfolding where_rows order_rows insert_row
oldest_first = refl

few_rows : length (admitted low rows) < 4
few_rows = rw oldest_first (omega arith)

lawful_route : IsLawfulRoute route
lawful_route = record { lawful = toy-IsLawful; times = λ t. refl }

queue-walk_example :
    Together route lawful_route low
      (some 2)
      (walk route 4 (params route lawful_route low (some 2) none) rows)
      (admitted low rows)
queue-walk_example =
    queue-walk route lawful_route low (some 2) rows 4 IsKeyed-rows IsShort-rows few_rows
