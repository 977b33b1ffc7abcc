-- ===== src/Crypto.antt =====
-- Field encryption (services/platform/src/shaidago/shared/crypto.py) and the data keys that it uses
-- (services/platform/src/shaidago/shared/data_keys.py, the table app.data_keys). AES-GCM is a
-- package of its own: the record `Aead` says what the code relies on. Random bytes, the clock and
-- the new identifier enter as arguments.
pub mod Laws
pub mod Toy
pub mod Many
pub mod Rotation
pub mod Shredding
mod Examples
use Prim.Native.String.{String}
use shaidago.Base.{
  ℕ, zero, suc, ◌+◌, ◌/◌, ◌%◌, ◌≡◌, Bool, true, false, ◌&&◌, ◌||◌, List, [], ◌∷◌, ◌++◌, Option,
  none, some, Result, ok, err, length, take, drop, ltb, ◌==◌, if◌then◌else◌, codes, Text, same_text,
  not, is_none, ◌>>=◌, leb, all,
}

abbrev pub Bytes : Type 0
Bytes = List ℕ

-- `AESGCM(key).encrypt(nonce, plaintext, context)` and `decrypt`, `none` for `InvalidTag`.
pub record Aead : Type 0 where
  pub seal : Bytes → Bytes → Bytes → Bytes → Bytes
  pub unseal : Bytes → Bytes → Bytes → Bytes → Option Bytes
  pub unseal-seal :
      (key nonce plain context : Bytes)
      → unseal key nonce (seal key nonce plain context) context ≡ some plain
  pub length-seal :
      (key nonce plain context : Bytes) → length (seal key nonce plain context) ≡ length plain + 16

-- `str.encode()`: UTF-8.
pub utf8_char : ℕ → Bytes
utf8_char c =
    if ltb c 0x80
    then c ∷ []
    else if ltb c 0x800
    then (0xc0 + c / 64) ∷ (0x80 + c % 64) ∷ []
    else if ltb c 0x10000
    then (0xe0 + c / 4096) ∷ (0x80 + c / 64 % 64) ∷ (0x80 + c % 64) ∷ []
    else (0xf0 + c / 262144) ∷ (0x80 + c / 4096 % 64) ∷ (0x80 + c / 64 % 64) ∷ (0x80 + c % 64) ∷ []

unfoldable pub encode : Text → Bytes
unfolding utf8_char
encode [] = []
encode (c ∷ s) = utf8_char c ++ encode s

-- `str(uuid)`: 32 hexadecimal digits in groups of 8, 4, 4, 4 and 12.
hex_digit : ℕ → ℕ
hex_digit d = if ltb d 10 then 48 + d else 87 + d

hex_digits : ℕ → ℕ → Text
hex_digits zero n = []
hex_digits (suc k) n = hex_digits k (n / 16) ++ hex_digit (n % 16) ∷ []

pub uuid_text : ℕ → Text
unfolding hex_digit hex_digits
uuid_text n =
    let h = hex_digits 32 n in
    take 8 h
    ++ 45
      ∷ (take 4 (drop 8 h)
          ++ 45 ∷ (take 4 (drop 12 h) ++ 45 ∷ (take 4 (drop 16 h) ++ 45 ∷ drop 20 h)))

-- `str(n)` of a number, by fuel: a number has at most as many digits as it is large, and one.
decimal_from : ℕ → ℕ → Text
decimal_from zero n = []
decimal_from (suc k) n =
    let rest = decimal_from k (n / 10) in
    if ltb n 10 then (48 + n) ∷ [] else rest ++ (48 + n % 10) ∷ []

pub decimal : ℕ → Text
unfolding decimal_from
decimal n = decimal_from (suc n) n

-- The associated data that binds a ciphertext to its place.
unfoldable pub field_context : Text → ℕ → Text → ℕ → Bytes
unfolding encode uuid_text decimal
field_context table row_id field_name schema_version =
    encode (table ++ 58 ∷ (uuid_text row_id ++ 58 ∷ (field_name ++ 58 ∷ decimal schema_version)))

-- The purposes of `PURPOSES`: no other can be asked for.
pub data Purpose : Type 0 where
  report_content contact review_notes follow_up_answers : Purpose

purpose_text : Purpose → Text
purpose_text report_content = codes "report_content"
purpose_text contact = codes "contact"
purpose_text review_notes = codes "review_notes"
purpose_text follow_up_answers = codes "follow_up_answers"

pub dek_context : ℕ → Purpose → Text → ℕ → Bytes
unfolding encode uuid_text purpose_text
dek_context key_id purpose owner_table owner_id = encode (
    codes "dek:"
    ++ (uuid_text key_id
        ++ 58 ∷ (purpose_text purpose ++ 58 ∷ (owner_table ++ 58 ∷ uuid_text owner_id))))

pub record DataKey : Type 0 where
  pub id : ℕ
  pub key : Bytes

-- The errors of the two files, and what the database raises for a new row of app.data_keys.
pub data CryptoError : Type 0 where
  decryption_error key_unavailable key_destroyed : CryptoError
  key_check_violation key_unique_violation : CryptoError

abbrev pub nonce_bytes : ℕ
nonce_bytes = 12

abbrev pub min_envelope_bytes : ℕ
min_envelope_bytes = 29

-- A row of app.data_keys. `wrapped` holds the wrapped key and the version of the key that wrapped
-- it: the check constraint of the table lets both be null together, once the key is destroyed.
pub record KeyRow : Type 0 where
  pub id : ℕ
  pub purpose : Purpose
  pub owner_table : Text
  pub owner_id : ℕ
  pub wrapped : Option (ℕ × Bytes)
  pub created_at : ℕ
  pub destroyed_at : Option ℕ

-- `envelope[:1] != FORMAT_VERSION`
abbrev has_format : Bytes → Bool
has_format [] = false
has_format (b ∷ bs) = b == 1

-- `InvalidTag` becomes `DecryptionError`.
abbrev opened : Option Bytes → Result CryptoError Bytes
opened none = err decryption_error
opened (some p) = ok p

module _ (aead : Aead) where
  open aead use {seal, unseal}

  -- The envelope that `FieldCipher.encrypt` and `EnvironmentKekWrapper.wrap` build.
  unfoldable pub close_envelope : Bytes → Bytes → Bytes → Bytes → Bytes
  close_envelope nonce key plaintext context = 1 ∷ (nonce ++ seal key nonce plaintext context)

  -- What `FieldCipher.decrypt` and `EnvironmentKekWrapper.unwrap` share.
  unfoldable pub open_envelope : Bytes → Bytes → Bytes → Result CryptoError Bytes
  open_envelope key envelope context =
      if ltb (length envelope) min_envelope_bytes || not (has_format envelope)
      then err decryption_error
      else opened (unseal key (take nonce_bytes (drop 1 envelope)) (drop 13 envelope) context)

  -- `FieldCipher.encrypt`, with the nonce that the cipher draws.
  unfoldable pub encrypt : Bytes → DataKey → Bytes → Bytes → Bytes
  unfolding close_envelope
  encrypt nonce data_key plaintext context = close_envelope nonce data_key.key plaintext context

  unfoldable pub decrypt : DataKey → Bytes → Bytes → Result CryptoError Bytes
  unfolding open_envelope
  decrypt data_key envelope context = open_envelope data_key.key envelope context

-- The key ring of `EnvironmentKekWrapper`: keys under their versions, and the active version.
pub record Ring : Type 0 where
  pub keys : List (ℕ × Bytes)
  pub active : ℕ

unfoldable pub find_kek : ℕ → List (ℕ × Bytes) → Option Bytes
find_kek version [] = none
find_kek version ((v, k) ∷ ks) = if v == version then some k else find_kek version ks

-- `secrets.token_bytes` twice and a new identifier, as `create` draws them.
pub record Draw : Type 0 where
  pub id : ℕ
  pub dek : Bytes
  pub nonce : Bytes

abbrev with_kek :
    {A : Type 0} → Option Bytes → (Bytes → Result CryptoError A) → Result CryptoError A
with_kek none f = err key_unavailable
with_kek (some k) f = f k

-- The row that `_INSERT` writes.
abbrev pub key_row : Draw → ℕ → Text → ℕ → Purpose → ℕ × Bytes → KeyRow
key_row draw now owner_table owner_id purpose wrapped = record {
  id = draw.id;
  purpose = purpose;
  owner_table = owner_table;
  owner_id = owner_id;
  wrapped = some wrapped;
  created_at = now;
  destroyed_at = none;
}

-- What a foreign key to app.data_keys asks for.
unfoldable pub has_key : Option ℕ → List KeyRow → Bool
has_key none rows = true
has_key (some key_id) [] = false
has_key (some key_id) (row ∷ rows) = row.id == key_id || has_key (some key_id) rows

abbrev pub is_purpose : Purpose → Purpose → Bool
is_purpose report_content report_content = true
is_purpose contact contact = true
is_purpose review_notes review_notes = true
is_purpose follow_up_answers follow_up_answers = true
is_purpose _ _ = false

abbrev is_lower : ℕ → Bool
is_lower c = leb 97 c && leb c 122

abbrev is_name_char : ℕ → Bool
is_name_char c = is_lower c || (leb 48 c && leb c 57) || c == 95

-- `ck_data_keys_owner_table`: `^[a-z][a-z0-9_]{0,62}$`.
unfoldable pub is_table_name : Text → Bool
is_table_name [] = false
is_table_name (c ∷ s) = is_lower c && leb (length s) 62 && all is_name_char s

-- `ck_data_keys_state`
abbrev pub is_key_state : Option (ℕ × Bytes) → Option ℕ → Bool
is_key_state (some (version, wrapped)) none = leb 29 (length wrapped)
is_key_state none (some destroyed_at) = true
is_key_state _ _ = false

unfoldable pub key_check : KeyRow → Bool
key_check row = is_table_name row.owner_table && is_key_state row.wrapped row.destroyed_at

-- What `uq_data_keys_owner_table_owner_id_purpose` admits once.
unfoldable pub is_owned : Text → ℕ → Purpose → List KeyRow → Bool
is_owned owner_table owner_id purpose [] = false
is_owned owner_table owner_id purpose (row ∷ rows) =
    (same_text row.owner_table owner_table
      && row.owner_id == owner_id
      && is_purpose row.purpose purpose)
    || is_owned owner_table owner_id purpose rows

-- `_INSERT`: the checks of the table, then its primary key and its unique constraint.
unfoldable pub insert_key : KeyRow → List KeyRow → Result CryptoError (List KeyRow)
unfolding has_key key_check is_owned
insert_key row rows =
    if not (key_check row)
    then err key_check_violation
    else if has_key (some row.id) rows
    then err key_unique_violation
    else if is_owned row.owner_table row.owner_id row.purpose rows
    then err key_unique_violation
    else ok (row ∷ rows)

module _ (aead : Aead) (ring : Ring) where
  -- `_keys[self._active]` cannot miss: the constructor refuses a ring without its active version.
  unfoldable pub wrap : Bytes → Bytes → Bytes → Result CryptoError (ℕ × Bytes)
  unfolding close_envelope find_kek
  wrap nonce dek context =
      with_kek (find_kek ring.active ring.keys)
        (λ k. ok (ring.active, close_envelope aead nonce k dek context))

  unfoldable pub unwrap : ℕ → Bytes → Bytes → Result CryptoError Bytes
  unfolding open_envelope find_kek
  unwrap version wrapped context =
      with_kek (find_kek version ring.keys) (λ k. open_envelope aead k wrapped context)

  -- `DataKeyService.create`: the key, and the rows with its own.
  unfoldable pub create :
      Draw → ℕ → Text → ℕ → Purpose → List KeyRow → Result CryptoError (DataKey × List KeyRow)
  unfolding wrap dek_context insert_key
  create draw now owner_table owner_id purpose rows = do
    wrapped ← wrap draw.nonce draw.dek (dek_context draw.id purpose owner_table owner_id)
    inserted ← insert_key (key_row draw now owner_table owner_id purpose wrapped) rows
    ok (record { id = draw.id; key = draw.dek }, inserted)

  -- `_unwrap`, and the test before it in `load`.
  unfoldable pub unwrap_row : KeyRow → Option (ℕ × Bytes) → Result CryptoError DataKey
  unfolding unwrap dek_context
  unwrap_row row none = err key_destroyed
  unwrap_row row (some (version, wrapped)) = do
    dek ← unwrap version wrapped (dek_context row.id row.purpose row.owner_table row.owner_id)
    ok (record { id = row.id; key = dek })

  unfoldable pub load : ℕ → List KeyRow → Result CryptoError DataKey
  unfolding unwrap_row
  load key_id [] = err decryption_error
  load key_id (row ∷ rows) =
      if row.id == key_id then unwrap_row row row.wrapped else load key_id rows

-- The rows that `_DESTROY` updates: those of an owner and a purpose that are not destroyed yet.
unfoldable pub is_live_key : Text → ℕ → Purpose → KeyRow → Bool
is_live_key owner_table owner_id purpose row =
    same_text row.owner_table owner_table
    && row.owner_id == owner_id
    && is_purpose row.purpose purpose
    && is_none row.destroyed_at

-- `DataKeyService.destroy`: the rows left, and how many were destroyed.
unfoldable pub destroy : ℕ → Text → ℕ → Purpose → List KeyRow → List KeyRow × ℕ
unfolding is_live_key
destroy now owner_table owner_id purpose [] = ([], 0)
destroy now owner_table owner_id purpose (row ∷ rows) =
    let (rest, n) = destroy now owner_table owner_id purpose rows in
    if is_live_key owner_table owner_id purpose row
    then (record row { wrapped = none; destroyed_at = some now } ∷ rest, suc n)
    else (row ∷ rest, n)
