-- ===== src/Pagination.antt =====
-- Signed cursors and pages (services/platform/src/shaidago/shared/pagination.py). What the module
-- takes from Python's library, base64, JSON, HMAC and UUID, is the record Codec.
pub mod Queue
pub mod Cursors
pub mod Order
pub mod Walk
mod Toy
mod Examples
use shaidago.Base.{
  ℕ, zero, suc, ◌+◌, ◌-◌, ◌%◌, Bool, true, false, ◌&&◌, ◌||◌, not, List, [], ◌∷◌, ◌++◌, Option,
  none, some, Result, ok, err, ◌>>=◌, ◌>>◌, guard, all, leb, ltb, length, take, drop, ◌==◌,
  if◌then◌else◌, Text, codes, same_text,
}
use shaidago.Problems.{Problem, invalid_cursor}

pub data ℤ : Type 0 where
  pos negsuc : ℕ → ℤ

-- A value of a JSON object; any other one is kept as what `str` makes of it.
pub data Json : Type 0 where
  text : Text → Json
  integer : ℤ → Json
  boolean : Bool → Json
  other : Text → Json

pub data SortValue : Type 0 where
  of_text : Text → SortValue
  of_integer : ℤ → SortValue

pub record CursorPosition : Type 0 where
  pub sort_value : SortValue
  pub row_id : ℕ

pub record Page {ℓ} (A : Type ℓ) : Type ℓ where
  pub items : List A
  pub next_cursor : Option Text

-- The members of the object that a cursor carries.
pub record Body : Type 0 where
  pub v : Option Json
  pub s : Option Json
  pub k : Option Json
  pub i : Option Json

pub record Codec : Type 0 where
  pub urlsafe_b64encode : Text → Text
  pub urlsafe_b64decode : Text → Option Text
  pub dumps : Body → Text
  pub loads : Text → Option Body
  pub hmac_sha256 : Text → Text → Text
  pub str_uuid : ℕ → Text
  pub uuid : Text → Option ℕ
  pub str_integer : ℤ → Text

abbrev pub cursor_version : ℕ
cursor_version = 1

abbrev pub default_page_size : ℕ
default_page_size = 20

abbrev pub max_page_size : ℕ
max_page_size = 50

abbrev pub signature_bytes : ℕ
signature_bytes = 32

abbrev pub max_cursor_chars : ℕ
max_cursor_chars = 512

-- `clamp_page_size` with its default arguments.
unfoldable pub clamp_page_size : Option ℕ → ℕ
clamp_page_size none =
    if leb default_page_size max_page_size then default_page_size else max_page_size
clamp_page_size (some n) =
    let most = if leb n max_page_size then n else max_page_size in if leb 1 most then most else 1

abbrev pub pad : ℕ
pad = b'='

abbrev pub keep_unpadded : ℕ → Text → Text
keep_unpadded c [] = if c == pad then [] else c ∷ []
keep_unpadded c (d ∷ s) = c ∷ d ∷ s

-- `rstrip(b"=")`
unfoldable pub rstrip_pads : Text → Text
rstrip_pads [] = []
rstrip_pads (c ∷ s) = keep_unpadded c (rstrip_pads s)

-- `"=" * n`
unfoldable pub pads : ℕ → Text
pads zero = []
pads (suc n) = pad ∷ pads n

-- `-n % 4`
abbrev pub missing_pads : ℕ → ℕ
missing_pads n = (4 - n % 4) % 4

pub data CursorError : Type 0 where
  malformed bad_signature wrong_version_or_scope bad_sort_value : CursorError

abbrev pub found_or {ℓ κ} : {A : Type ℓ} {E : Type κ} → E → Option A → Result E A
found_or e none = err e
found_or e (some a) = ok a

-- `body["v"] != CURSOR_VERSION`: in Python, True and 1.0 are equal to 1.
abbrev pub is_version : Json → Bool
is_version (integer (pos n)) = n == cursor_version
is_version (integer (negsuc n)) = false
is_version (boolean b) = b
is_version (text t) = false
is_version (other t) = same_text t (codes "1.0")

abbrev pub sort_value_of : Json → Option SortValue
sort_value_of (text t) = some (of_text t)
sort_value_of (integer n) = some (of_integer n)
sort_value_of (boolean b) = none
sort_value_of (other t) = none

abbrev pub json_of : SortValue → Json
json_of (of_text t) = text t
json_of (of_integer n) = integer n

module _ (codec : Codec) where
  unfoldable pub b64 : Text → Text
  unfolding rstrip_pads
  b64 bytes = rstrip_pads (codec.urlsafe_b64encode bytes)

  unfoldable pub unb64 : Text → Option Text
  unfolding pads
  unb64 token = codec.urlsafe_b64decode (token ++ pads (missing_pads (length token)))

  -- `str`
  abbrev pub str_of : Json → Text
  str_of (text t) = t
  str_of (integer n) = codec.str_integer n
  str_of (boolean b) = if b then codes "True" else codes "False"
  str_of (other t) = t

  abbrev pub body_of : Text → CursorPosition → Body
  body_of scope position = record {
    v = some (integer (pos cursor_version));
    s = some (text scope);
    k = some (json_of position.sort_value);
    i = some (text (codec.str_uuid position.row_id));
  }

  unfoldable pub encode_cursor : Text → Text → CursorPosition → Text
  unfolding b64
  encode_cursor key scope position =
      let payload = codec.dumps (body_of scope position) in
      b64 (payload ++ codec.hmac_sha256 key payload)

  -- What is read off the object of a cursor that is signed.
  unfoldable pub position_in : Text → Body → Result CursorError CursorPosition
  position_in scope body = do
    v ← found_or malformed body.v
    guard (is_version v) wrong_version_or_scope
    s ← found_or malformed body.s
    guard (same_text (str_of s) scope) wrong_version_or_scope
    k ← found_or malformed body.k
    sort_value ← found_or bad_sort_value (sort_value_of k)
    i ← found_or malformed body.i
    row_id ← found_or malformed (codec.uuid (str_of i))
    ok (record { sort_value = sort_value; row_id = row_id })

  -- `_decode`
  unfoldable pub decode : Text → Text → Text → Result CursorError CursorPosition
  unfolding unb64 position_in
  decode key scope token = do
    guard (ltb 0 (length token)) malformed
    guard (leb (length token) max_cursor_chars) malformed
    guard (all (λ c. ltb c 128) token) malformed
    raw ← found_or malformed (unb64 token)
    guard (ltb signature_bytes (length raw)) malformed
    guard
        (same_text (drop (length raw - signature_bytes) raw)
          (codec.hmac_sha256 key (take (length raw - signature_bytes) raw)))
        bad_signature
    body ← found_or malformed (codec.loads (take (length raw - signature_bytes) raw))
    position_in scope body

  -- Whatever is wrong with a cursor, its caller is told the same.
  abbrev pub or_invalid : Result CursorError CursorPosition → Result Problem CursorPosition
  or_invalid (ok position) = ok position
  or_invalid (err e) = err invalid_cursor

  unfoldable pub decode_cursor : Text → Text → Text → Result Problem CursorPosition
  unfolding decode
  decode_cursor key scope token = or_invalid (decode key scope token)

  abbrev pub cursor_of : Text → Text → Option CursorPosition → Option Text
  cursor_of key scope none = none
  cursor_of key scope (some position) = some (encode_cursor key scope position)

-- The position of the last of some rows: `position_of(items[-1])`.
unfoldable pub last_position {ℓ} :
    {A : Type ℓ} → (A → CursorPosition) → List A → Option CursorPosition
last_position position_of [] = none
last_position position_of (x ∷ []) = some (position_of x)
last_position position_of (x ∷ y ∷ rows) = last_position position_of (y ∷ rows)

unfoldable pub build_page {ℓ} :
    {A : Type ℓ} → Codec → List A → ℕ → (A → CursorPosition) → Text → Text → Page A
unfolding last_position
build_page codec rows limit position_of key scope =
    let items = take limit rows in
    record {
      items = items;
      next_cursor =
          if ltb limit (length rows)
          then cursor_of codec key scope (last_position position_of items)
          else none;
    }
