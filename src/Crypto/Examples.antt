-- ===== src/Crypto/Examples.antt =====
-- Keys created, read and destroyed, with a toy cipher.
use shaidago.Base.{◌≡◌, refl, some, List, [], ◌∷◌, ◌++◌, ok, err, codes, Text, arith, ◌⊎◌}
use shaidago.Crypto.{
  Bytes, Ring, wrap, unwrap, DataKey, KeyRow, contact, review_notes, find_kek, create, load,
  destroy, key_destroyed, key_row, Draw, key_unique_violation, is_table_name, has_key, is_owned,
  insert_key, key_check,
}
use shaidago.Crypto.Toy.{toy, nonce, ring, draw, sixteen}
use shaidago.Crypto.Laws.{load-create}
use shaidago.Crypto.Shredding.{Later, here, creating, IsKeyOf, load-destroy}
use shaidago.Crypto.Rotation.{rotate, rotate_rows, rotate_row, is_stale, count_stale, load-rotate}
use shaidago.Crypto.Many.{find}

abbrev owner : Text
owner = codes "report_notes"

abbrev row7 : KeyRow
row7 = key_row draw 100 owner 5 review_notes (1, 1 ∷ (nonce ++ (sixteen ++ 42 ∷ [])))

abbrev rows : List KeyRow
rows = row7 ∷ []

-- The contact of another owner.
abbrev rows9 : List KeyRow
rows9 =
    key_row (record draw { id = 9 }) 100 owner 6 contact (1, 1 ∷ (nonce ++ (sixteen ++ 42 ∷ [])))
    ∷ []

abbrev hello : Bytes
hello = 104 ∷ 105 ∷ []

-- A second draw for the same owner and purpose.
abbrev another : Draw
another = record { id = 8; dek = 43 ∷ []; nonce = nonce }

load-create_example :
    (k : DataKey) × (rows' : List KeyRow) × (create toy ring draw 100 owner 5 contact rows9
      ≡ ok (k, rows'))
    × (k.key ≡ draw.dek)
    × (load toy ring k.id rows' ≡ ok k)
    × (load toy ring 9 rows' ≡ load toy ring 9 rows9)
    × (create toy ring another 101 owner 5 contact rows' ≡ err key_unique_violation)
unfolding find_kek is_table_name has_key is_owned
load-create_example =
    load-create toy ring draw another 100 101 9 owner 5 contact rows9 {kek = 99 ∷ []} refl refl refl
      refl refl refl (λ e. absurd (omega (arith, e)))

-- The same owner's contact is created after the notes are destroyed.
abbrev after_all : List KeyRow
after_all =
    key_row another 300 owner 5 contact (1, 1 ∷ (nonce ++ (sixteen ++ 43 ∷ [])))
    ∷ (destroy 200 owner 5 review_notes rows).0

later : Later toy (destroy 200 owner 5 review_notes rows).0 after_all
unfolding create insert_key wrap find_kek has_key key_check is_table_name is_owned destroy
later = creating ring another 300 owner 5 contact (record { id = 8; key = 43 ∷ [] }) here refl

load-destroy_example :
    (IsKeyOf owner 5 review_notes row7 × (load toy ring 7 after_all ≡ err key_destroyed))
    ⊎ ((¬ IsKeyOf owner 5 review_notes row7)
        × (load toy ring 7 (destroy 200 owner 5 review_notes rows).0 ≡ load toy ring 7 rows))
load-destroy_example =
    load-destroy toy 200 owner 5 review_notes ring 7 rows after_all {row = row7} refl refl later

shredded : load toy ring 7 (destroy 200 owner 5 review_notes rows).0 ≡ err key_destroyed
unfolding load destroy
shredded = refl

found : find owner 5 review_notes rows ≡ some 7
unfolding find
found = refl

abbrev newer : Ring
newer = record { keys = (1, 99 ∷ []) ∷ (2, 98 ∷ []) ∷ []; active = 2 }

abbrev rotated : List KeyRow
rotated = key_row draw 100 owner 5 review_notes (2, 1 ∷ (nonce ++ (sixteen ++ 42 ∷ []))) ∷ []

load-rotate_example : load toy newer 7 rotated ≡ load toy newer 7 rows
unfolding rotate rotate_rows rotate_row find_kek is_stale count_stale unwrap wrap
load-rotate_example =
    load-rotate toy newer (λ n. nonce) 100 7 rows
      {result = record { rewrapped = 1; unavailable = 0; remaining = 0 }} (λ n. refl) refl
