-- ===== src/Pagination/Toy.antt =====
-- A codec that keeps the laws of base64, JSON, HMAC and UUID, to run cursors with
-- (services/platform/src/shaidago/shared/pagination.py): a byte is written in unary.
use shaidago.Base.{
  ℕ, zero, suc, ◌+◌, ◌%◌, ◌≡◌, refl, ap, ◌∙◌, Bool, true, false, [], ◌∷◌, ◌++◌, Option, none, some,
  all, ltb, length, take, drop, ◌==◌, if◌then◌else◌, Text, take-append_left, drop-append_left,
  length-append, arith,
}
use shaidago.Pagination.{
  pos, negsuc, Json, text, integer, Codec, Body, CursorPosition, SortValue, of_text, of_integer,
  signature_bytes, pad, pads, rstrip_pads, missing_pads, keep_unpadded, body_of, json_of,
}
use shaidago.Pagination.Cursors.{IsBase64, IsLawful}

abbrev unary : ℕ → Text → Text
unary zero s = b'B' ∷ s
unary (suc n) s = b'A' ∷ unary n s

abbrev write : Text → Text
write [] = []
write (b ∷ bs) = unary b (write bs)

abbrev padded : Text → Text
padded bs = write bs ++ pads (missing_pads (length (write bs)))

abbrev one_more : Text → Text
one_more [] = []
one_more (b ∷ bs) = suc b ∷ bs

abbrev read : Text → Text
read [] = []
read (c ∷ s) =
    let bs = read s in if c == b'B' then 0 ∷ bs else if c == b'A' then one_more bs else []

abbrev write_value : SortValue → Text → Text
write_value (of_text t) rest = 0 ∷ length t ∷ (t ++ rest)
write_value (of_integer (pos n)) rest = 1 ∷ n ∷ rest
write_value (of_integer (negsuc n)) rest = 2 ∷ n ∷ rest

abbrev write_json : Option Json → Text → Text
write_json (some (text t)) rest = write_value (of_text t) rest
write_json (some (integer n)) rest = write_value (of_integer n) rest
write_json _ rest = rest

abbrev dumps : Body → Text
dumps body = 0 ∷ write_json body.s (write_json body.k (write_json body.i []))

abbrev read_json : Text → Option (Json × Text)
read_json (zero ∷ n ∷ s) = some (text (take n s), drop n s)
read_json (suc zero ∷ n ∷ s) = some (integer (pos n), s)
read_json (suc (suc zero) ∷ n ∷ s) = some (integer (negsuc n), s)
read_json _ = none

abbrev then_read {ℓ} : {A : Type ℓ} → Option (Json × Text) → (Json → Text → Option A) → Option A
then_read none f = none
then_read (some (j, s)) f = f j s

abbrev with_id : Json → Json → Json → Text → Option Body
with_id s k i rest =
    some (record { v = some (integer (pos 1)); s = some s; k = some k; i = some i })

abbrev with_sort_value : Json → Json → Text → Option Body
with_sort_value s k rest = then_read (read_json rest) (with_id s k)

abbrev with_scope : Json → Text → Option Body
with_scope s rest = then_read (read_json rest) (with_sort_value s)

abbrev loads : Text → Option Body
loads [] = none
loads (c ∷ t) = then_read (read_json t) with_scope

abbrev zeros : ℕ → Text
zeros zero = []
zeros (suc n) = 0 ∷ zeros n

abbrev uuid : Text → Option ℕ
uuid (i ∷ []) = some i
uuid _ = none

abbrev pub toy : Codec
toy = record {
  urlsafe_b64encode = padded;
  urlsafe_b64decode = λ s. some (read s);
  dumps = dumps;
  loads = loads;
  hmac_sha256 = λ key message. zeros signature_bytes;
  str_uuid = λ i. i ∷ [];
  uuid = uuid;
  str_integer = λ n. [];
}

read-unary : (b : ℕ) (s : Text) → read (unary b s) ≡ b ∷ read s
read-unary zero s = refl
read-unary (suc b) s = ap one_more (read-unary b s)

unary-append : (b : ℕ) (s t : Text) → unary b s ++ t ≡ unary b (s ++ t)
unary-append zero s t = refl
unary-append (suc b) s t = ap (λ u. b'A' ∷ u) (unary-append b s t)

read-pads : (n : ℕ) → read (pads n) ≡ []
unfolding pads
read-pads zero = refl
read-pads (suc n) = refl

read-write : (bs t : Text) → read t ≡ [] → read (write bs ++ t) ≡ bs
read-write [] t h = h
read-write (b ∷ bs) t h =
    ap read (unary-append b (write bs) t)
    ∙ read-unary b (write bs ++ t)
    ∙ ap (λ u. b ∷ u) (read-write bs t h)

all-unary :
    (p : ℕ → Bool) (b : ℕ) (s : Text)
    → p b'A' ≡ true
    → p b'B' ≡ true
    → all p s ≡ true
    → all p (unary b s) ≡ true
all-unary p zero s a b' h = rw (b', h) refl
all-unary p (suc b) s a b' h = rw (a, all-unary p b s a b' h) refl

all-write :
    (p : ℕ → Bool) (bs t : Text)
    → p b'A' ≡ true
    → p b'B' ≡ true
    → all p t ≡ true
    → all p (write bs ++ t) ≡ true
all-write p [] t a b' h = h
all-write p (b ∷ bs) t a b' h =
    ap (all p) (unary-append b (write bs) t)
    ∙ all-unary p b (write bs ++ t) a b' (all-write p bs t a b' h)

all-pads : (n : ℕ) → all (λ c. ltb c 128) (pads n) ≡ true
unfolding pads
all-pads zero = refl
all-pads (suc n) = all-pads n

keep_unpadded-kept : (c : ℕ) (s : Text) → (c == pad) ≡ false → keep_unpadded c s ≡ c ∷ s
keep_unpadded-kept c [] h = rw h refl
keep_unpadded-kept c (d ∷ s) h = refl

rstrip_pads-unary : (b : ℕ) (s : Text) → rstrip_pads s ≡ s → rstrip_pads (unary b s) ≡ unary b s
unfolding rstrip_pads
rstrip_pads-unary zero s h = ap (keep_unpadded b'B') h ∙ keep_unpadded-kept b'B' s refl
rstrip_pads-unary (suc b) s h =
    ap (keep_unpadded b'A') (rstrip_pads-unary b s h) ∙ keep_unpadded-kept b'A' (unary b s) refl

rstrip_pads-write : (bs : Text) → rstrip_pads (write bs) ≡ write bs
unfolding rstrip_pads
rstrip_pads-write [] = refl
rstrip_pads-write (b ∷ bs) = rstrip_pads-unary b (write bs) (rstrip_pads-write bs)

length-pads : (k : ℕ) → length (pads k) ≡ k
unfolding pads
length-pads zero = refl
length-pads (suc k) = ap suc (length-pads k)

padded-whole : (n k : ℕ) → k ≡ missing_pads n → (n + k) % 4 ≡ 0
padded-whole n k h = omega arith

padded-IsBase64 : (bs : Text) → IsBase64 (padded bs)
padded-IsBase64 bs =
    let n = length (write bs) in
    let k = missing_pads n in
    record {
      core = write bs;
      k = k;
      split = refl;
      bare = rstrip_pads-write bs;
      few = omega arith;
      whole =
          ap (λ m. m % 4) (length-append (write bs) (pads k))
          ∙ padded-whole n (length (pads k)) (length-pads k);
      ascii = all-write (λ c. ltb c 128) bs (pads k) refl refl (all-pads k);
    }

read_json-write :
    (j : SortValue) (rest : Text)
    → read_json (write_json (some (json_of j)) rest) ≡ some (json_of j, rest)
read_json-write (of_text t) rest =
    rw (take-append_left (length t) t rest refl, drop-append_left (length t) t rest refl) refl
read_json-write (of_integer (pos n)) rest = refl
read_json-write (of_integer (negsuc n)) rest = refl

then_read-some {ℓ} :
    {A : Type ℓ} (o : Option (Json × Text)) (j : Json) (s : Text) (f : Json → Text → Option A)
    → o ≡ some (j, s)
    → then_read o f ≡ f j s
then_read-some o j s f h = ap (λ p. then_read p f) h

loads-dumps :
    (scope : Text) (position : CursorPosition)
    → loads (dumps (body_of toy scope position)) ≡ some (body_of toy scope position)
loads-dumps scope position =
    let id = write_json (some (text (position.row_id ∷ []))) [] in
    let rest = write_json (some (json_of position.sort_value)) id in
    then_read-some (read_json (write_json (some (text scope)) rest)) (text scope) rest with_scope
      (read_json-write (of_text scope) rest)
    ∙ then_read-some (read_json rest) (json_of position.sort_value) id
        (with_sort_value (text scope)) (read_json-write position.sort_value id)

pub toy-IsLawful : IsLawful toy
toy-IsLawful = record {
  encoded = padded-IsBase64;
  decoded = λ b. ap some (
      read-write b (pads (missing_pads (length (write b))))
        (read-pads (missing_pads (length (write b)))));
  empty = refl;
  loaded = loads-dumps;
  written = λ b. omega arith;
  signed = λ key message. refl;
  parsed = λ i. refl;
}
