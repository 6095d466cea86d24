-- ===== src/Zatca/Tlv.antt =====
-- apps/api/src/zatca/zatca-tlv.ts: the tag-length-value payload of the QR code.
-- A text is the list of its code units and a buffer the list of its bytes. `Buffer.from(…, 'utf8')` and
-- `Buffer.from(…, 'base64')` are parameters, and a QR code is the buffer before its base64 text.
pub mod RoundTrip
use tailor_erp.Prelude.{
  ℕ, zero, suc, Option, none, some, List, [], ◌∷◌, ◌++◌, ltb, ◌==◌, if◌then◌else◌, length,
}

abbrev pub Text : Type 0
Text = List ℕ

abbrev pub Buffer : Type 0
Buffer = List ℕ

pub record QrFields : Type 0 where
  pub seller_name : Text
  pub vat_number : Text
  pub timestamp : Text
  pub invoice_total : Text
  pub vat_total : Text
  pub invoice_hash : Option Text
  pub signature : Option Text
  pub public_key : Option Text
  pub stamp_signature : Option Text

-- The two encodings of `Buffer.from`.
pub record Encoding : Type 0 where
  pub utf8 : Text → Buffer
  pub base64 : Text → Buffer

-- encodeTag; `none` is the error it throws.
unfoldable pub encode_tag : ℕ → Buffer → Option Buffer
encode_tag tag value = if ltb 255 (length value) then none else some (tag ∷ length value ∷ value)

abbrev pub prepend : Buffer → Option Buffer → Option Buffer
prepend b none = none
prepend b (some bs) = some (b ++ bs)

-- Buffer.concat of the encoded parts
unfoldable pub encode_all : List (ℕ × Buffer) → Option Buffer
encode_all [] = some []
encode_all (p ∷ ps) =
    let rest = encode_all ps in elim (encode_tag p.0 p.1) [ none ↦ none | some b ↦ prepend b rest ]

-- `if (field) parts.push(…)`: an empty text is not pushed either.
abbrev pub pushed : Encoding → ℕ → Option Text → List (ℕ × Buffer)
pushed e tag none = []
pushed e tag (some []) = []
pushed e tag (some (c ∷ cs)) = (tag, e.base64 (c ∷ cs)) ∷ []

-- The tags of buildTlv with their values
unfoldable pub parts : Encoding → QrFields → List (ℕ × Buffer)
parts e f =
    (1, e.utf8 f.seller_name)
    ∷ (2, e.utf8 f.vat_number)
    ∷ (3, e.utf8 f.timestamp)
    ∷ (4, e.utf8 f.invoice_total)
    ∷ (5, e.utf8 f.vat_total)
    ∷ (pushed e 6 f.invoice_hash
        ++ (pushed e 7 f.signature ++ (pushed e 8 f.public_key ++ pushed e 9 f.stamp_signature)))

-- buildTlv
unfoldable pub build_tlv : Encoding → QrFields → Option Buffer
unfolding parts encode_all
build_tlv e f = encode_all (parts e f)

unfoldable pub take : ℕ → Buffer → Buffer
take zero bs = []
take (suc n) [] = []
take (suc n) (b ∷ bs) = b ∷ take n bs

unfoldable pub drop : ℕ → Buffer → Buffer
drop zero bs = bs
drop (suc n) [] = []
drop (suc n) (b ∷ bs) = drop n bs

-- `out[tag] = value`
unfoldable pub set_tag : ℕ → Buffer → List (ℕ × Buffer) → List (ℕ × Buffer)
set_tag tag value [] = (tag, value) ∷ []
set_tag tag value (p ∷ ps) =
    let rest = set_tag tag value ps in if p.0 == tag then (tag, value) ∷ ps else p ∷ rest

-- The outcome of decodeTlv; `unfinished` is a loop that has run out of fuel.
pub data Decoded : Type 0 where
  decoded : List (ℕ × Buffer) → Decoded
  malformed : Decoded
  unfinished : Decoded

-- The loop of decodeTlv on what is left of the buffer.
unfoldable pub decode_loop : ℕ → List (ℕ × Buffer) → Buffer → Decoded
unfolding set_tag take drop
decode_loop fuel out [] = decoded out
decode_loop zero out (tag ∷ bs) = unfinished
decode_loop (suc fuel) out (tag ∷ []) = malformed
decode_loop (suc fuel) out (tag ∷ n ∷ bs) =
    let rest = decode_loop fuel (set_tag tag (take n bs) out) (drop n bs) in
    if ltb (length bs) n then malformed else rest

-- decodeTlv
unfoldable pub decode_tlv : Buffer → Decoded
decode_tlv bs = decode_loop (length bs) [] bs
