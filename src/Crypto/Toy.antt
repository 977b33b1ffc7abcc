-- ===== src/Crypto/Toy.antt =====
-- Test data: a toy cipher that keeps the text and adds a tag of sixteen bytes, a key ring, one draw.
use shaidago.Base.{ℕ, zero, suc, ◌+◌, ◌≡◌, refl, [], ◌∷◌, ◌++◌, Option, none, some, length, arith}
use shaidago.Crypto.{Bytes, Aead, DataKey, Ring, Draw}

abbrev pub sixteen : Bytes
sixteen = 0 ∷ 0 ∷ 0 ∷ 0 ∷ 0 ∷ 0 ∷ 0 ∷ 0 ∷ 0 ∷ 0 ∷ 0 ∷ 0 ∷ 0 ∷ 0 ∷ 0 ∷ 0 ∷ []

-- Drops the first sixteen bytes, the tag.
abbrev untag : ℕ → Bytes → Option Bytes
untag zero s = some s
untag (suc n) [] = none
untag (suc n) (c ∷ s) = untag n s

abbrev toy_seal : Bytes → Bytes → Bytes → Bytes → Bytes
toy_seal key nonce plain context = sixteen ++ plain

pub toy_length :
    (key nonce plain context : Bytes)
    → length (toy_seal key nonce plain context) ≡ length plain + 16
toy_length key nonce plain context = omega arith

abbrev pub toy : Aead
toy = record {
  seal = toy_seal;
  unseal = λ key nonce sealed context. untag 16 sealed;
  unseal-seal = λ key nonce plain context. refl;
  length-seal = toy_length;
}

abbrev pub nonce : Bytes
nonce = 1 ∷ 2 ∷ 3 ∷ 4 ∷ 5 ∷ 6 ∷ 7 ∷ 8 ∷ 9 ∷ 10 ∷ 11 ∷ 12 ∷ []

abbrev pub key : DataKey
key = record { id = 7; key = 42 ∷ [] }

abbrev pub ring : Ring
ring = record { keys = (1, 99 ∷ []) ∷ []; active = 1 }

abbrev pub draw : Draw
draw = record { id = 7; dek = 42 ∷ []; nonce = nonce }
