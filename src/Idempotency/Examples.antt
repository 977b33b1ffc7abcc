-- ===== src/Idempotency/Examples.antt =====
-- A request, its retry, and a purge in between.
use shaidago.Base.{ℕ, ◌≡◌, ◌≢◌, ◌<◌, ◌+◌, refl, arith, List, [], ◌∷◌, some, ok, Text, codes}
use shaidago.Crypto.{Bytes}
use shaidago.Crypto.Toy.{toy, nonce}
use shaidago.Idempotency.{
  Row, Claim, claimed, claim, claim_of, claimed_row, find_record, begin, complete, first_time,
  retention, purge,
}
use shaidago.Idempotency.Laws.{begin-again, told}
use shaidago.Idempotency.Once.{stays, goes, claims, purges, claim-once}
use shaidago.Idempotency.Purging.{IsKeyed, Step-IsKeyed, claim-purge}

abbrev derive : Text → Text → Bytes
derive key context = key

abbrev hash_key : Text → Bytes
hash_key key = 7 ∷ key

abbrev create : Text
create = codes "create_report"

abbrev the_claim : Claim
the_claim = claim_of toy derive hash_key create (codes "key") (9 ∷ []) 1 1000

abbrev table : List Row
table = claimed_row the_claim ∷ []

first_claim : claim the_claim [] ≡ (claimed, table)
unfolding claim find_record
first_claim = refl

begun_first :
    begin toy derive hash_key create (codes "key") (9 ∷ []) 1 1000 [] ≡ (ok first_time, table)
unfolding begin claim find_record
begun_first = refl

begin-again_example :
    (rows2 : List Row) × (complete toy derive hash_key nonce create (codes "key") 201 (5 ∷ []) table
      ≡ some rows2)
    × ((fingerprint2 : Bytes) (id2 now2 : ℕ)
        → ((begin toy derive hash_key create (codes "key") fingerprint2 id2 now2 rows2).0
            ≡ told toy derive hash_key 1000 now2 (9 ∷ []) fingerprint2 201 (5 ∷ []))
          × (now2 < 1000 + retention
              → (begin toy derive hash_key create (codes "key") fingerprint2 id2 now2 rows2).1
                ≡ rows2))
begin-again_example =
    begin-again toy derive hash_key create (codes "key") (9 ∷ []) 1 1000 nonce 201 (5 ∷ []) []
      begun_first refl

-- A retry within the window, with a purge before it.
abbrev again : Claim
again = claim_of toy derive hash_key create (codes "key") (9 ∷ []) 2 2000

claim-once_example : (claim again (purge 1500 10 table).0).0 ≢ claimed
claim-once_example =
    claim-once the_claim again [] (purge 1500 10 table).0 first_claim
      (goes (purges 1500 10 (omega arith)) stays) refl refl (omega arith)

keyed : IsKeyed table
unfolding find_record
keyed = (refl, tt)

Step-IsKeyed_example : IsKeyed (claim again table).1
Step-IsKeyed_example = Step-IsKeyed {limit = 3000} {rows = table} (claims again (omega arith)) keyed

claim-purge_example : (claim again (purge 1500 10 table).0).0 ≡ (claim again table).0
claim-purge_example = claim-purge again 10 1500 table (omega arith) keyed
