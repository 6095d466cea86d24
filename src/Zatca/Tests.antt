-- ===== src/Zatca/Tests.antt =====
-- Concrete amounts and a concrete QR code.
use tailor_erp.Prelude.{
  ℕ, ◌+◌, ◌*◌, ◌≤◌, ◌<◌, ◌≡◌, ◌⊎◌, none, some, List, [], ◌∷◌, arith, pos, negsuc, pos_part, ◌+ℤ◌,
  ◌≤ℤ◌, All,
}
use tailor_erp.Zatca.Vat.{split_inclusive, add_exclusive, ksa_vat_rate}
use tailor_erp.Zatca.Vat.Laws.{
  split_inclusive_exact, split_inclusive-add_exclusive, split_inclusive_drift, vat_of,
}
use tailor_erp.Zatca.Chain.{Invoice, find_chain_break}
use tailor_erp.Zatca.Chain.Links.{IsChain, BrokenAt, find_chain_break_decides}
use tailor_erp.Zatca.Tlv.{Buffer, QrFields, Encoding, parts, build_tlv, decode_tlv, decoded}
use tailor_erp.Zatca.Tlv.RoundTrip.{IsShort, build_tlv-decode_tlv}

split_inclusive_exact_example :
    let b = split_inclusive (pos 34500) 15 in
    (b.net +ℤ b.vat ≡ pos 34500)
    × (pos 0 ≤ℤ b.net)
    × (pos 0 ≤ℤ b.vat)
    × (2 * (34500 * 100) < 2 * (pos_part b.net * (100 + 15)) + (100 + 15))
    × (2 * (pos_part b.net * (100 + 15)) ≤ 2 * (34500 * 100) + (100 + 15))
split_inclusive_exact_example = split_inclusive_exact 34500 15

split_inclusive-add_exclusive_example :
    let b = add_exclusive (pos 33333) ksa_vat_rate in
    ((split_inclusive b.gross ksa_vat_rate).net ≡ pos 33333)
    × ((split_inclusive b.gross ksa_vat_rate).vat ≡ b.vat)
split_inclusive-add_exclusive_example = split_inclusive-add_exclusive 33333

split_inclusive_drift_example :
    ((split_inclusive (pos (10001 + (24499 + (7 + 0)))) ksa_vat_rate).vat
      ≤ℤ vat_of (10001 ∷ 24499 ∷ 7 ∷ []) +ℤ pos 2)
    × (vat_of (10001 ∷ 24499 ∷ 7 ∷ [])
        ≤ℤ (split_inclusive (pos (10001 + (24499 + (7 + 0)))) ksa_vat_rate).vat +ℤ pos 2)
split_inclusive_drift_example = split_inclusive_drift 10001 (24499 ∷ 7 ∷ [])

-- ASCII texts, whose UTF-8 bytes are their code units.
abbrev ascii : Encoding
ascii = record { utf8 = λ t. t; base64 = λ t. t }

abbrev receipt : QrFields
receipt = record {
  seller_name = 65 ∷ 66 ∷ [];
  vat_number = 51 ∷ [];
  timestamp = 50 ∷ 48 ∷ [];
  invoice_total = 49 ∷ [];
  vat_total = 48 ∷ [];
  invoice_hash = some (97 ∷ 98 ∷ 99 ∷ []);
  signature = none;
  public_key = some [];
  stamp_signature = none;
}

receipt-IsShort : All IsShort (parts ascii receipt)
unfolding parts
receipt-IsShort = omega arith

build_tlv-decode_tlv_example :
    (bs : Buffer) × (build_tlv ascii receipt ≡ some bs)
    × (decode_tlv bs ≡ decoded (parts ascii receipt))
build_tlv-decode_tlv_example = build_tlv-decode_tlv ascii receipt receipt-IsShort

-- The second invoice was edited after the third was issued.
abbrev edited : List Invoice
edited =
    record { invoice_hash = some 11; previous_hash = some 7 }
    ∷ record { invoice_hash = some 99; previous_hash = some 11 }
    ∷ record { invoice_hash = some 13; previous_hash = some 12 }
    ∷ []

find_chain_break_decides_example :
    (IsChain (some 7) edited × (find_chain_break 7 edited ≡ negsuc 0))
    ⊎ ((n : ℕ) × BrokenAt (some 7) edited n × (find_chain_break 7 edited ≡ pos n))
find_chain_break_decides_example = find_chain_break_decides 7 edited
