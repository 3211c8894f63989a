-- ===== src/Offers/Receipts/History.antt =====
-- packages/offerrail/receipts.py: a ledger under any requests, and ledgers that verify.
use autonomerce.Prelude.{◌≡◌, refl, ap, inl, inr, true, none, List, [], ◌∷◌, ◌++◌, arith, sym}
use autonomerce.Prelude.Text.{Runtime}
use autonomerce.Prelude.Results.{ok, Result-cases}
use autonomerce.Offers.Receipts.{Codec}
use autonomerce.Offers.Receipts.Ledger.{
  CommercialReceipt, Ledger, Entry, append, append_all, verify,
}
use autonomerce.Offers.Receipts.Chain.{last_hash_lem, verify_from-append, append-cases}

append_assoc : (xs ys zs : List CommercialReceipt) → (xs ++ ys) ++ zs ≡ xs ++ (ys ++ zs)
append_assoc [] ys zs = refl
append_assoc (x ∷ xs) ys zs = ap (λ r. x ∷ r) (append_assoc xs ys zs)

append-[] : (xs : List CommercialReceipt) → xs ++ [] ≡ xs
append-[] [] = refl
append-[] (x ∷ xs) = ap (λ r. x ∷ r) (append-[] xs)

-- a ledger that has every record of another, in place, and that verifies
pub record Grown (py : Runtime) (c : Codec) (l m : Ledger) : Type 0 where
  pub added : List CommercialReceipt
  pub records : m.records ≡ l.records ++ added
  pub verified : verify py c m ≡ true

module _ (py : Runtime) (c : Codec) where
  append-Grown :
      (e : Entry) (l m : Ledger) (r : CommercialReceipt)
      → verify py c l ≡ true
      → append py c e l ≡ ok (r, m)
      → Grown py c l m
  append-Grown e l m r h a = elim (append-cases py c e l m r a) [
    | inl same ↦ record {
      added = [];
      records = ground (arith, append-[] l.records);
      verified = ground arith;
    }
    | inr (grown, step) ↦ record {
      added = r ∷ [];
      records = grown;
      verified = rw grown (
          verify_from-append py c 1 none l.records r h
            (rw (← last_hash_lem l.records) (ground arith)));
    }
  ]

  -- Any requests, the refused ones among them, leave a ledger that verifies with a ledger that
  -- verifies, whose records begin with the records that were there: no record is changed or removed.
  pub append_all-Grown :
      (es : List Entry) (l : Ledger) → verify py c l ≡ true → Grown py c l (append_all py c es l)
  unfolding append_all
  append_all-Grown [] l h = record { added = []; records = sym (append-[] l.records); verified = h }
  append_all-Grown (e ∷ es) l h = elim (Result-cases (append py c e l)) [
    | inl ((r, m), p) ↦
        let g : Grown py c l m = append-Grown e l m r h p in
        let k : Grown py c m (append_all py c es m) = append_all-Grown es m g.verified in
        record {
          added = g.added ++ k.added;
          records = ground (arith, append_assoc l.records g.added k.added);
          verified = ground arith;
        }
    | inr (x, p) ↦ ground (arith, append_all-Grown es l h, p)
  ]
