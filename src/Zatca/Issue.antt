-- ===== src/Zatca/Issue.antt =====
-- apps/api/src/zatca/zatca.service.ts: the issuing of tax invoices and the check of their chain. The
-- XML of an invoice, its canonical form, its hash and its QR code are one parameter, `document`, which
-- gives the hash and the QR code from the row, the counter and the previous hash, or throws. The
-- re-hashing of archived files is not modelled. An organisation issues one invoice at a time, by its
-- advisory lock.

pub mod Sorting
pub mod Series
mod Tests
use tailor_erp.Prelude.{
  ℕ, ◌+◌, Bool, true, false, ◌&&◌, Option, none, some, List, [], ◌∷◌, map, ltb, ◌==◌, if◌then◌else◌,
  ℤ, Decimal, not_found, Result, ok, ◌>>=◌, or_throw, length, keep, find,
}
use tailor_erp.Zatca.Vat.{split_inclusive, ksa_vat_rate}
use tailor_erp.Zatca.Chain.{Invoice, find_chain_break}

-- A row of invoices, with the total of its order.
pub record TaxInvoice : Type 0 where
  pub id : ℕ
  pub organization_id : ℕ
  pub order_total : Decimal
  pub zatca_uuid : Option ℕ
  pub icv : Option ℕ
  pub invoice_hash : Option ℕ
  pub previous_hash : Option ℕ
  pub qr_code : Option ℕ
  pub net_amount : Decimal
  pub vat_amount : Decimal
  pub total_amount : Decimal

abbrev pub has_id : ℕ → TaxInvoice → Bool
has_id id x = x.id == id

abbrev pub or_zero : Option ℕ → ℕ
or_zero none = 0
or_zero (some n) = n

abbrev pub is_some : Option ℕ → Bool
is_some none = false
is_some (some n) = true

-- WHERE organization_id = … AND icv IS NOT NULL
abbrev pub is_issued : ℕ → TaxInvoice → Bool
is_issued org x = (x.organization_id == org) && is_some x.icv

-- ORDER BY icv
unfoldable pub insert_by_icv : TaxInvoice → List TaxInvoice → List TaxInvoice
insert_by_icv x [] = x ∷ []
insert_by_icv x (y ∷ ys) =
    let rest = insert_by_icv x ys in
    if ltb (or_zero y.icv) (or_zero x.icv) then y ∷ rest else x ∷ y ∷ ys

unfoldable pub sort_by_icv : List TaxInvoice → List TaxInvoice
unfolding insert_by_icv
sort_by_icv [] = []
sort_by_icv (x ∷ xs) = insert_by_icv x (sort_by_icv xs)

-- The invoices of an organisation that are issued, in the order of their counters.
unfoldable pub series : ℕ → List TaxInvoice → List TaxInvoice
unfolding sort_by_icv
series org rows = sort_by_icv (keep (is_issued org) rows)

-- ORDER BY icv DESC LIMIT 1
abbrev pub last_from : TaxInvoice → List TaxInvoice → TaxInvoice
last_from x [] = x
last_from x (y ∷ ys) = last_from y ys

abbrev pub last : List TaxInvoice → Option TaxInvoice
last [] = none
last (x ∷ xs) = some (last_from x xs)

abbrev pub or_genesis : ℕ → Option ℕ → ℕ
or_genesis genesis none = genesis
or_genesis genesis (some h) = h

abbrev pub slot_after : ℕ → Option TaxInvoice → ℕ × ℕ
slot_after genesis none = (1, genesis)
slot_after genesis (some x) = (or_zero x.icv + 1, or_genesis genesis x.invoice_hash)

-- allocateChainSlot: the counter, and the previous hash.
unfoldable pub allocate_chain_slot : ℕ → ℕ → List TaxInvoice → ℕ × ℕ
unfolding series
allocate_chain_slot genesis org rows = slot_after genesis (last (series org rows))

-- `UPDATE … WHERE id = …`, the primary key
unfoldable pub update_row : ℕ → (TaxInvoice → TaxInvoice) → List TaxInvoice → List TaxInvoice
update_row id f [] = []
update_row id f (x ∷ xs) =
    let rest = update_row id f xs in if has_id id x then f x ∷ xs else x ∷ rest

module _ (genesis : ℕ) (document : TaxInvoice → ℕ → ℕ → Result (ℕ × ℕ)) where
  -- `data` of the update in issue
  abbrev pub issued_row : ℕ → ℕ × ℕ → ℕ × ℕ → TaxInvoice → TaxInvoice
  issued_row uuid slot stamp x =
      let totals = split_inclusive x.order_total ksa_vat_rate in
      record x {
        zatca_uuid = some uuid;
        icv = some slot.0;
        previous_hash = some slot.1;
        invoice_hash = some stamp.0;
        qr_code = some stamp.1;
        net_amount = totals.net;
        vat_amount = totals.vat;
        total_amount = totals.gross;
      }

  -- issue: an invoice that has its UUID stays as it is.
  unfoldable pub issue : ℕ → ℕ → List TaxInvoice → Result (List TaxInvoice)
  unfolding allocate_chain_slot update_row
  issue id uuid rows = do
    invoice ← or_throw (find (has_id id) rows) not_found
    if is_some invoice.zatca_uuid then ok rows else (do
      let slot = allocate_chain_slot genesis invoice.organization_id rows
      stamp ← document invoice slot.0 slot.1
      ok (update_row id (issued_row uuid slot stamp) rows))

abbrev pub link_of : TaxInvoice → Invoice
link_of x = record { invoice_hash = x.invoice_hash; previous_hash = x.previous_hash }

-- The counters that are not one more than their place.
unfoldable pub icv_gaps : ℕ → List TaxInvoice → List ℕ
icv_gaps i [] = []
icv_gaps i (x ∷ xs) =
    let rest = icv_gaps (i + 1) xs in if or_zero x.icv == i + 1 then rest else or_zero x.icv ∷ rest

pub record ChainReport : Type 0 where
  pub invoice_count : ℕ
  pub break_index : ℤ
  pub icv_gaps : List ℕ

-- verifyChain, the chain and the counters
unfoldable pub verify_chain : ℕ → ℕ → List TaxInvoice → ChainReport
unfolding series
verify_chain genesis org rows =
    let invoices = series org rows in
    record {
      invoice_count = length invoices;
      break_index = find_chain_break genesis (map link_of invoices);
      icv_gaps = icv_gaps 0 invoices;
    }
