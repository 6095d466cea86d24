-- ===== src/Common/Tests.antt =====
-- Two tills draw order numbers of one store, and an invoice number in between.
use tailor_erp.Prelude.{◌≡◌, none, some, List, [], ◌∷◌, leb, if◌then◌else◌}
use tailor_erp.Common.Counter.{order, invoice, Draw, Counter, seed_from}
use tailor_erp.Common.Counter.Numbering.{
  value_of, same_sequence, draw_all, numbers_of, count_up, draw_all_consecutive, seed_from_raises,
}

abbrev order_number : Draw
order_number = record { organization_id = 1; store_id = some 4; kind = order; scope = none }

abbrev invoice_number : Draw
invoice_number = record { organization_id = 1; store_id = none; kind = invoice; scope = some 2026 }

abbrev started : List Counter
started = record { organization_id = 1; store_key = 4; kind = order; scope = 0; value = 122 } ∷ []

draw_all_consecutive_example :
    numbers_of order_number (draw_all (order_number ∷ invoice_number ∷ order_number ∷ []) started)
    ≡ count_up order_number
        (value_of order_number started)
        (order_number ∷ invoice_number ∷ order_number ∷ [])
draw_all_consecutive_example =
    draw_all_consecutive order_number (order_number ∷ invoice_number ∷ order_number ∷ []) started

raised_to_hundred : value_of order_number (seed_from order_number 100 started) ≡ (
    if same_sequence order_number order_number
    then (if leb (value_of order_number started) 100 then 100 else value_of order_number started)
    else value_of order_number started)
raised_to_hundred = seed_from_raises order_number order_number 100 started
