-- ===== src/Zatca/Issue/Tests.antt =====
-- A draft that is issued as the first invoice of its organisation.
use tailor_erp.Prelude.{ℕ, ◌+◌, ◌*◌, ◌≡◌, refl, none, List, [], ◌∷◌, pos, negsuc, Result, ok}
use tailor_erp.Zatca.Issue.{
  TaxInvoice, insert_by_icv, sort_by_icv, series, allocate_chain_slot, update_row, issued_row,
  issue, verify_chain,
}
use tailor_erp.Zatca.Issue.Series.{IsSeries, empty, drafted, issued, verify_chain_sound}

abbrev toy_document : TaxInvoice → ℕ → ℕ → Result (ℕ × ℕ)
toy_document x icv previous = ok (x.id * 100 + icv, previous)

abbrev draft : TaxInvoice
draft = record {
  id = 4;
  organization_id = 1;
  order_total = pos 11500;
  zatca_uuid = none;
  icv = none;
  invoice_hash = none;
  previous_hash = none;
  qr_code = none;
  net_amount = pos 0;
  vat_amount = pos 0;
  total_amount = pos 0;
}

abbrev first_invoice : List TaxInvoice
first_invoice = issued_row 77 toy_document 900 (1, 77) (401, 77) draft ∷ []

first_issue : issue 77 toy_document 4 900 (draft ∷ []) ≡ ok first_invoice
unfolding issue allocate_chain_slot series sort_by_icv insert_by_icv update_row
first_issue = refl

verify_chain_sound_example :
    ((verify_chain 77 1 first_invoice).break_index ≡ negsuc 0)
    × ((verify_chain 77 1 first_invoice).icv_gaps ≡ [])
    × IsSeries 1 77 (series 1 first_invoice)
verify_chain_sound_example =
    verify_chain_sound 77 toy_document 1
      (issued 4 900 (draft ∷ []) first_invoice first_issue (drafted draft [] refl refl empty))
