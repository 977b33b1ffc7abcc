-- ===== src/Crypto/Laws.antt =====
-- Round trips of field encryption and data keys, and what destroying a key leaves.
use shaidago.Base.{
  true, ℕ, suc, ◌+◌, ◌*◌, ◌≤◌, ◌≡◌, refl, false, List, [], ◌∷◌, ◌++◌, some, ok, err, arith, length,
  length-append, take-append_left, drop-append_left, ◌==◌, Text, Bool-cases, inl, inr, ==_refl, ltb,
  ◌≢◌, ◌↔◌, same_text_refl,
}
use shaidago.Crypto.{
  Bytes, Aead, DataKey, KeyRow, Ring, Draw, Purpose, find_kek, close_envelope, open_envelope,
  encrypt, decrypt, wrap, unwrap, create, load, has_key, dek_context, key_row, encode, utf8_char,
  is_purpose, is_table_name, key_check, is_owned, insert_key, key_unique_violation,
}

module _ (aead : Aead) where
  length-close_envelope :
      (nonce key plain context : Bytes)
      → length (close_envelope aead nonce key plain context) ≡ 1 + length nonce + length plain + 16
  unfolding close_envelope
  length-close_envelope nonce key plain context = omega (
    arith,
    length-append nonce (aead.seal key nonce plain context),
    aead.length-seal key nonce plain context,
  )

  -- What was sealed in an envelope with a nonce of twelve bytes is read back, with the same key and context.
  pub open_envelope-close_envelope :
      (nonce key plain context : Bytes)
      → length nonce ≡ 12
      → open_envelope aead key (close_envelope aead nonce key plain context) context ≡ ok plain
  unfolding open_envelope close_envelope
  open_envelope-close_envelope nonce key plain context h =
      let sealed = aead.seal key nonce plain context in
      let long : ltb (suc (length (nonce ++ sealed))) 29 ≡ false =
        ground (arith, length-append nonce sealed, aead.length-seal key nonce plain context) in
      rw (
        long,
        take-append_left 12 nonce sealed h,
        drop-append_left 12 nonce sealed h,
        aead.unseal-seal key nonce plain context,
      )

  -- A field that was encrypted under a data key with a nonce of twelve bytes is decrypted to the
  -- same bytes by that key in the same context, and the ciphertext is 29 bytes longer.
  pub decrypt-encrypt :
      (nonce : Bytes) (data_key : DataKey) (plain context : Bytes)
      → length nonce ≡ 12
      → (decrypt aead data_key (encrypt aead nonce data_key plain context) context ≡ ok plain)
        × (length (encrypt aead nonce data_key plain context) ≡ length plain + 29)
  unfolding decrypt encrypt
  decrypt-encrypt nonce data_key plain context h = (
    open_envelope-close_envelope nonce data_key.key plain context h,
    omega (arith, length-close_envelope nonce data_key.key plain context),
  )

pub is_purpose_iff : (p q : Purpose) → (is_purpose p q ≡ true) ↔ (p ≡ q)
is_purpose_iff p q = ground arith

is_purpose_refl : (p : Purpose) → is_purpose p p ≡ true
is_purpose_refl p = (is_purpose_iff p p).1 refl

-- The key that is handed out.
abbrev pub created : Draw → DataKey
created draw = record { id = draw.id; key = draw.dek }

module _ (aead : Aead) (ring : Ring) where
  -- The row under which a new key is kept.
  abbrev pub sealed_row : Draw → ℕ → Text → ℕ → Purpose → Bytes → KeyRow
  sealed_row draw now owner_table owner_id purpose kek =
      key_row draw now owner_table owner_id purpose (
        ring.active,
        close_envelope aead draw.nonce kek draw.dek
            (dek_context draw.id purpose owner_table owner_id),
      )

  module _ (draw : Draw) (now : ℕ) (owner_table : Text) (owner_id : ℕ) (purpose : Purpose)
      (rows : List KeyRow) (kek : Bytes) where
    sealed_row-key_check :
        is_table_name owner_table ≡ true
        → length draw.nonce ≡ 12
        → key_check (sealed_row draw now owner_table owner_id purpose kek) ≡ true
    unfolding key_check
    sealed_row-key_check named h = rw named (
        ground (
          arith,
          length-close_envelope aead draw.nonce kek draw.dek
              (dek_context draw.id purpose owner_table owner_id),
        ))

    pub create-fresh :
        find_kek ring.active ring.keys ≡ some kek
        → length draw.nonce ≡ 12
        → is_table_name owner_table ≡ true
        → has_key (some draw.id) rows ≡ false
        → is_owned owner_table owner_id purpose rows ≡ false
        → create aead ring draw now owner_table owner_id purpose rows
          ≡ ok (created draw, sealed_row draw now owner_table owner_id purpose kek ∷ rows)
    unfolding create insert_key wrap
    create-fresh active h named new free = rw (active, sealed_row-key_check named h, new, free) refl

    load-sealed_row :
        find_kek ring.active ring.keys ≡ some kek
        → length draw.nonce ≡ 12
        → load aead ring draw.id (sealed_row draw now owner_table owner_id purpose kek ∷ rows)
          ≡ ok (created draw)
    unfolding load unwrap
    load-sealed_row active h = rw (
      ==_refl draw.id,
      active,
      open_envelope-close_envelope aead draw.nonce kek draw.dek
          (dek_context draw.id purpose owner_table owner_id) h,
    )

    load-other :
        (i : ℕ)
        → i ≢ draw.id
        → load aead ring i (sealed_row draw now owner_table owner_id purpose kek ∷ rows)
          ≡ load aead ring i rows
    unfolding load
    load-other i other = ground arith

    is_owned-sealed_row :
        is_owned owner_table owner_id purpose
          (sealed_row draw now owner_table owner_id purpose kek ∷ rows)
        ≡ true
    unfolding is_owned
    is_owned-sealed_row = rw (same_text_refl owner_table, ==_refl owner_id, is_purpose_refl purpose)

  create-owned :
      (draw : Draw) (now : ℕ) (owner_table : Text) (owner_id : ℕ) (purpose : Purpose)
      (rows : List KeyRow) {kek : Bytes}
      → find_kek ring.active ring.keys ≡ some kek
      → length draw.nonce ≡ 12
      → is_table_name owner_table ≡ true
      → is_owned owner_table owner_id purpose rows ≡ true
      → create aead ring draw now owner_table owner_id purpose rows ≡ err key_unique_violation
  unfolding create insert_key wrap
  create-owned draw now owner_table owner_id purpose rows {kek} active h named owned =
      elim (Bool-cases (has_key (some draw.id) rows)) [
        | inl old ↦
            rw
              (
                active,
                sealed_row-key_check draw now owner_table owner_id purpose rows kek named h,
                old,
              )
              refl
        | inr new ↦
            rw
              (
                active,
                sealed_row-key_check draw now owner_table owner_id purpose rows kek named h,
                new,
                owned,
              )
              refl
      ]

  -- While the active version of the key ring is configured, a data key is created for an owner of a
  -- legal table name, with a new identifier and a nonce of twelve bytes, when the owner has no key
  -- for the purpose. Reading it by its identifier gives the same key, every other identifier reads
  -- as before, and the next key for the same owner and purpose is refused by the unique constraint.
  pub load-create :
      (draw draw2 : Draw) (now now2 i : ℕ) (owner_table : Text) (owner_id : ℕ) (purpose : Purpose)
      (rows : List KeyRow) {kek : Bytes}
      → find_kek ring.active ring.keys ≡ some kek
      → length draw.nonce ≡ 12
      → length draw2.nonce ≡ 12
      → is_table_name owner_table ≡ true
      → has_key (some draw.id) rows ≡ false
      → is_owned owner_table owner_id purpose rows ≡ false
      → i ≢ draw.id
      → (key : DataKey) × (rows' : List KeyRow) × (create aead ring draw now owner_table owner_id
            purpose rows
          ≡ ok (key, rows'))
        × (key.key ≡ draw.dek)
        × (load aead ring key.id rows' ≡ ok key)
        × (load aead ring i rows' ≡ load aead ring i rows)
        × (create aead ring draw2 now2 owner_table owner_id purpose rows'
            ≡ err key_unique_violation)
  load-create draw draw2 now now2 i owner_table owner_id purpose rows {kek} active h h2 named new
        free other =
      (
        created draw,
        sealed_row draw now owner_table owner_id purpose kek ∷ rows,
        create-fresh draw now owner_table owner_id purpose rows kek active h named new free,
        refl,
        load-sealed_row draw now owner_table owner_id purpose rows kek active h,
        load-other draw now owner_table owner_id purpose rows kek i other,
        create-owned draw2 now2 owner_table owner_id purpose
            (sealed_row draw now owner_table owner_id purpose kek ∷ rows) active h2 named
            (is_owned-sealed_row draw now owner_table owner_id purpose rows kek),
      )

-- A key that can be loaded is in the table.
pub load-has_key :
    (aead : Aead) (ring : Ring) (key_id : ℕ) (rows : List KeyRow) {k : DataKey}
    → load aead ring key_id rows ≡ ok k
    → has_key (some key_id) rows ≡ true
unfolding load has_key
load-has_key aead ring key_id [] h = cc
load-has_key aead ring key_id (row ∷ rows) {k} h = elim (Bool-cases (row.id == key_id)) [
  | inl here ↦ rw here refl
  | inr other ↦ rw other (load-has_key aead ring key_id rows {k = k} (rw other at h))
]

length-utf8_char : (c : ℕ) → length (utf8_char c) ≤ 4
unfolding utf8_char
length-utf8_char c = ground arith

-- The UTF-8 of a text has at most four bytes for each of its characters.
pub length-encode : (s : Text) → length (encode s) ≤ 4 * length s
unfolding encode
length-encode [] = omega arith
length-encode (c ∷ s) =
    omega (arith, length-append (utf8_char c) (encode s), length-utf8_char c, length-encode s)
