-- ===== src/Pagination/Cursors.antt =====
-- What a signed cursor is worth: `encode_cursor` and `decode_cursor`
-- (services/platform/src/shaidago/shared/pagination.py).
use shaidago.Base.{
  some-injective, ℕ, zero, suc, ◌+◌, ◌-◌, ◌%◌, ◌≤◌, ◌<◌, ◌≡◌, refl, sym, ap, ◌∙◌, Bool, true, [],
  ◌∷◌, ◌++◌, Option, none, some, Result, ok, err, guard, all, leb, ltb, length, take, drop, Text,
  same_text, same_text_iff, bind-ok, guard-ok, take-drop, take-append_left, drop-append_left,
  length-append, arith,
}
use shaidago.Pagination.{
  Codec, Json, Body, CursorPosition, CursorError, malformed, SortValue, of_text, of_integer,
  signature_bytes, max_cursor_chars, pads, rstrip_pads, missing_pads, found_or, is_version,
  sort_value_of, json_of, str_of, body_of, b64, unb64, encode_cursor, position_in, decode,
  or_invalid, decode_cursor,
}

-- Base64: a multiple of four characters of ASCII, padded at the end alone.
pub record IsBase64 (s : Text) : Type 0 where
  pub core : Text
  pub k : ℕ
  pub split : s ≡ core ++ pads k
  pub bare : rstrip_pads core ≡ core
  pub few : k < 4
  pub whole : length s % 4 ≡ 0
  pub ascii : all (λ c. ltb c 128) s ≡ true

-- What the library documents.
pub record IsLawful (codec : Codec) : Type 0 where
  pub encoded : (b : Text) → IsBase64 (codec.urlsafe_b64encode b)
  pub decoded : (b : Text) → codec.urlsafe_b64decode (codec.urlsafe_b64encode b) ≡ some b
  pub empty : codec.urlsafe_b64decode [] ≡ some []
  pub loaded :
      (scope : Text) (position : CursorPosition)
      → codec.loads (codec.dumps (body_of codec scope position))
        ≡ some (body_of codec scope position)
  pub written : (b : Body) → 1 ≤ length (codec.dumps b)
  pub signed : (key message : Text) → length (codec.hmac_sha256 key message) ≡ signature_bytes
  pub parsed : (i : ℕ) → codec.uuid (codec.str_uuid i) ≡ some i

length-pads : (k : ℕ) → length (pads k) ≡ k
unfolding pads
length-pads zero = refl
length-pads (suc k) = ap suc (length-pads k)

rstrip_pads-pads : (k : ℕ) → rstrip_pads (pads k) ≡ []
unfolding pads rstrip_pads
rstrip_pads-pads zero = refl
rstrip_pads-pads (suc k) = rw (rstrip_pads-pads k) refl

rstrip_pads-append : (s t : Text) → rstrip_pads t ≡ [] → rstrip_pads (s ++ t) ≡ rstrip_pads s
unfolding rstrip_pads
rstrip_pads-append [] t h = h
rstrip_pads-append (c ∷ s) t h = rw (rstrip_pads-append s t h) refl

all-append_left : (p : ℕ → Bool) (s t : Text) → all p (s ++ t) ≡ true → all p s ≡ true
all-append_left p [] t h = refl
all-append_left p (c ∷ s) t h = ground (arith, all-append_left p s t)

-- The padding that was taken off is put back.
missing_pads-split : (n k : ℕ) → (n + k) % 4 ≡ 0 → k < 4 → missing_pads n ≡ k
missing_pads-split n k h few = omega arith

module _ (codec : Codec) (lawful : IsLawful codec) where
  b64-core : (b : Text) → b64 codec b ≡ (lawful.encoded b).core
  unfolding b64
  b64-core b =
      let e = lawful.encoded b in
      ap rstrip_pads e.split ∙ rstrip_pads-append e.core (pads e.k) (rstrip_pads-pads e.k) ∙ e.bare

  unb64-b64 : (b : Text) → unb64 codec (b64 codec b) ≡ some b
  unfolding unb64
  unb64-b64 b =
      let e = lawful.encoded b in
      let long : length e.core + e.k ≡ length (codec.urlsafe_b64encode b) =
        ap (λ n. length e.core + n) (sym (length-pads e.k))
        ∙ sym (length-append e.core (pads e.k))
        ∙ ap length (sym e.split) in
      let missing : missing_pads (length e.core) ≡ e.k =
        missing_pads-split (length e.core) e.k (ap (λ n. n % 4) long ∙ e.whole) e.few in
      ap (λ t. codec.urlsafe_b64decode (t ++ pads (missing_pads (length t)))) (b64-core b)
      ∙ ap (λ n. codec.urlsafe_b64decode (e.core ++ pads n)) missing
      ∙ ap codec.urlsafe_b64decode (sym e.split)
      ∙ lawful.decoded b

  b64-ascii : (b : Text) → all (λ c. ltb c 128) (b64 codec b) ≡ true
  b64-ascii b =
      let e = lawful.encoded b in
      rw (b64-core b) (
        all-append_left (λ c. ltb c 128) e.core (pads e.k)
          (ap (all (λ c. ltb c 128)) (sym e.split) ∙ e.ascii))

  sort_value_of-json_of : (v : SortValue) → sort_value_of (json_of v) ≡ some v
  sort_value_of-json_of (of_text t) = refl
  sort_value_of-json_of (of_integer n) = refl

  position_in-body_of :
      (scope : Text) (position : CursorPosition)
      → position_in codec scope (body_of codec scope position) ≡ ok position
  unfolding position_in
  position_in-body_of scope position =
      let same = (same_text_iff scope scope).1 refl in
      rw (same, sort_value_of-json_of position.sort_value, lawful.parsed position.row_id) refl

  unb64-written :
      (token : Text) {b : Text}
      → unb64 codec token ≡ some b
      → 1 ≤ length b
      → ltb 0 (length token) ≡ true
  unfolding unb64 pads
  unb64-written [] h some_bytes =
      let none_left : [] ≡ _ = some-injective (sym lawful.empty ∙ h) in
      absurd (omega (arith, ap length none_left))
  unb64-written (c ∷ token) h some_bytes = ground arith

  -- A cursor that was encoded for a scope is decoded, for that scope, to the position it was made
  -- of, if it is not longer than a cursor may be.
  pub decode_cursor-encode_cursor :
      (key scope : Text) (position : CursorPosition)
      → length (encode_cursor codec key scope position) ≤ max_cursor_chars
      → decode_cursor codec key scope (encode_cursor codec key scope position) ≡ ok position
  unfolding decode_cursor decode encode_cursor
  decode_cursor-encode_cursor key scope position short =
      let payload = codec.dumps (body_of codec scope position) in
      let signature = codec.hmac_sha256 key payload in
      let long : length (payload ++ signature) ≡ length payload + 32 =
        length-append payload signature
        ∙ ap (λ n. length payload + n) (lawful.signed key payload) in
      let cut : length (payload ++ signature) - signature_bytes ≡ length payload =
        omega (arith, long) in
      let front : take (length (payload ++ signature) - signature_bytes) (payload ++ signature)
          ≡ payload =
        ap (λ n. take n (payload ++ signature)) cut
        ∙ take-append_left (length payload) payload signature refl in
      let back : drop (length (payload ++ signature) - signature_bytes) (payload ++ signature)
          ≡ signature =
        ap (λ n. drop n (payload ++ signature)) cut
        ∙ drop-append_left (length payload) payload signature refl in
      let fits : leb (length (b64 codec (payload ++ signature))) max_cursor_chars ≡ true =
        ground arith in
      let some_bytes = lawful.written (body_of codec scope position) in
      let enough : ltb signature_bytes (length (payload ++ signature)) ≡ true =
        ground (arith, long, some_bytes) in
      let written =
        unb64-written (b64 codec (payload ++ signature)) (unb64-b64 (payload ++ signature))
          (omega (arith, long)) in
      let same : same_text signature signature ≡ true =
        (same_text_iff signature signature).1 refl in
      rw
        (
          written,
          fits,
          b64-ascii (payload ++ signature),
          unb64-b64 (payload ++ signature),
          enough,
          front,
          back,
          same,
          lawful.loaded scope position,
          position_in-body_of scope position,
        )
        refl

module _ (codec : Codec) where
  -- What a cursor that is accepted carries.
  pub record Genuine (key scope token : Text) (position : CursorPosition) : Type 0 where
    pub payload : Text
    pub raw : unb64 codec token ≡ some (payload ++ codec.hmac_sha256 key payload)
    pub body : Body
    pub loads : codec.loads payload ≡ some body
    pub s : Json
    pub in_body : body.s ≡ some s
    pub scoped : str_of codec s ≡ scope
    pub bounded : length token ≤ max_cursor_chars
    pub read : position_in codec scope body ≡ ok position

  found_or-ok {ℓ κ} :
      {A : Type ℓ} {E : Type κ} (e : E) (o : Option A) {a : A} → found_or e o ≡ ok a → o ≡ some a
  found_or-ok e none h = absurd (ground arith)
  found_or-ok e (some b) h = ground arith

  or_invalid-ok :
      (r : Result CursorError CursorPosition) {position : CursorPosition}
      → or_invalid codec r ≡ ok position
      → r ≡ ok position
  or_invalid-ok (ok p) h = ground arith
  or_invalid-ok (err e) h = absurd (ground arith)

  position_in-scoped :
      (scope : Text) (body : Body) {position : CursorPosition}
      → position_in codec scope body ≡ ok position
      → (s : Json) × (body.s ≡ some s) × (str_of codec s ≡ scope)
  unfolding position_in
  position_in-scoped scope body h = bind-ok (found_or malformed body.v) _ h λ v e1 h1.
      bind-ok (guard (is_version v) _) _ h1 λ u2 e2 h2.
        bind-ok (found_or malformed body.s) _ h2 λ s e3 h3.
          bind-ok (guard (same_text (str_of codec s) scope) _) _ h3 λ u4 e4 h4. (
            s,
            found_or-ok malformed body.s e3,
            (same_text_iff (str_of codec s) scope).0
                (guard-ok (same_text (str_of codec s) scope) _ e4),
          )

  -- Whatever is accepted as a cursor carries a payload that is signed with the key and is bound to
  -- the scope: nothing is read off a cursor that was made without the key, or for other filters.
  pub decode_cursor-Genuine :
      (key scope token : Text) {position : CursorPosition}
      → decode_cursor codec key scope token ≡ ok position
      → Genuine key scope token position
  unfolding decode_cursor decode
  decode_cursor-Genuine key scope token {position} h =
      bind-ok (guard (ltb 0 (length token)) _) _ (or_invalid-ok (decode codec key scope token) h)
        λ u1 e1 h1. bind-ok (guard (leb (length token) max_cursor_chars) _) _ h1 λ u2 e2 h2.
          bind-ok (guard (all (λ c. ltb c 128) token) _) _ h2 λ u3 e3 h3.
            bind-ok (found_or malformed (unb64 codec token)) _ h3 λ raw e4 h4.
              let n = length raw - signature_bytes in
              let expected = codec.hmac_sha256 key (take n raw) in
              bind-ok (guard (ltb signature_bytes (length raw)) _) _ h4 λ u5 e5 h5.
                bind-ok (guard (same_text (drop n raw) expected) _) _ h5 λ u6 e6 h6.
                  bind-ok (found_or malformed (codec.loads (take n raw))) _ h6 λ body e7 h7.
                    let (s, in_body, scoped) = position_in-scoped scope body h7 in
                    let signed : drop n raw ≡ expected =
                      (same_text_iff (drop n raw) expected).0
                        (guard-ok (same_text (drop n raw) expected) _ e6) in
                    record {
                      payload = take n raw;
                      raw =
                          found_or-ok malformed (unb64 codec token) e4
                          ∙ ap some (sym (take-drop n raw) ∙ ap (λ t. take n raw ++ t) signed);
                      body = body;
                      loads = found_or-ok malformed (codec.loads (take n raw)) e7;
                      s = s;
                      in_body = in_body;
                      scoped = scoped;
                      bounded =
                          (let short = guard-ok (leb (length token) max_cursor_chars) _ e2 in
                            ground arith);
                      read = h7;
                    }
