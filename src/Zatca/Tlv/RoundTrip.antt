-- ===== src/Zatca/Tlv/RoundTrip.antt =====
-- The payload read back.
use tailor_erp.Prelude.{
  ℕ, zero, suc, ◌≤◌, ◌<◌, ◌≡◌, refl, sym, ap, ◌∙◌, false, Option, none, some, List, [], ◌∷◌, ◌++◌,
  arith, ltb, ◌==◌, length, All, length-append,
}
use mathlib.Core.List.{append-nil, append_assoc}
use tailor_erp.Zatca.Tlv.{
  Text, Buffer, QrFields, Encoding, encode_tag, encode_all, prepend, pushed, parts, build_tlv, take,
  drop, set_tag, decoded, decode_loop, decode_tlv,
}

take-append : (xs ys : Buffer) → take (length xs) (xs ++ ys) ≡ xs
unfolding take
take-append [] ys = refl
take-append (x ∷ xs) ys = ap (λ zs. x ∷ zs) (take-append xs ys)

drop-append : (xs ys : Buffer) → drop (length xs) (xs ++ ys) ≡ ys
unfolding drop
drop-append [] ys = refl
drop-append (x ∷ xs) ys = drop-append xs ys

-- The values that the one-byte length can carry.
abbrev pub IsShort : ℕ × Buffer → Type 0
IsShort p = length p.1 ≤ 255

-- The values of a list of parts, put in one after the other.
set_all : List (ℕ × Buffer) → List (ℕ × Buffer) → List (ℕ × Buffer)
set_all [] out = out
set_all (p ∷ ps) out = set_all ps (set_tag p.0 p.1 out)

value_fits : (value rest : Buffer) → ltb (length (value ++ rest)) (length value) ≡ false
value_fits value rest = ground (arith, length-append value rest)

decode_loop-step :
    (fuel tag : ℕ) (value rest : Buffer) (out : List (ℕ × Buffer))
    → decode_loop (suc fuel) out (tag ∷ length value ∷ (value ++ rest))
      ≡ decode_loop fuel (set_tag tag value out) rest
unfolding decode_loop
decode_loop-step fuel tag value rest out =
    rw (value_fits value rest, take-append value rest, drop-append value rest) refl

encode_all_lem :
    (p : ℕ × Buffer) (ps : List (ℕ × Buffer))
    → encode_all (p ∷ ps)
      ≡ elim (encode_tag p.0 p.1) [ none ↦ none | some b ↦ prepend b (encode_all ps) ]
unfolding encode_all
encode_all_lem p ps = refl

encode_all-cons :
    (p : ℕ × Buffer) (ps : List (ℕ × Buffer)) (rest : Buffer)
    → IsShort p
    → encode_all ps ≡ some rest
    → encode_all (p ∷ ps) ≡ some (p.0 ∷ length p.1 ∷ (p.1 ++ rest))
unfolding encode_tag
encode_all-cons p ps rest short e =
    let fits : ltb 255 (length p.1) ≡ false = ground arith in
    encode_all_lem p ps ∙ rw (fits, e) refl

read_back :
    (p : ℕ × Buffer) (ps : List (ℕ × Buffer)) (rest : Buffer)
    → ((fuel : ℕ) (out : List (ℕ × Buffer))
        → length rest ≤ fuel
        → decode_loop fuel out rest ≡ decoded (set_all ps out))
    → (fuel : ℕ) (out : List (ℕ × Buffer)) → length (p.0 ∷ length p.1 ∷ (p.1 ++ rest)) ≤ fuel
    → decode_loop fuel out (p.0 ∷ length p.1 ∷ (p.1 ++ rest)) ≡ decoded (set_all (p ∷ ps) out)
unfolding set_all
read_back p ps rest back zero out enough = absurd (omega arith)
read_back p ps rest back (suc fuel) out enough =
    decode_loop-step fuel p.0 p.1 rest out
    ∙ back fuel (set_tag p.0 p.1 out) (omega (arith, length-append p.1 rest))

-- Encoding short values gives a buffer that the loop reads back, with as much fuel as the buffer is
-- long.
encode_all-decode_loop :
    (ps : List (ℕ × Buffer))
    → All IsShort ps
    → (bs : Buffer) × (encode_all ps ≡ some bs)
      × ((fuel : ℕ) (out : List (ℕ × Buffer))
          → length bs ≤ fuel
          → decode_loop fuel out bs ≡ decoded (set_all ps out))
unfolding decode_loop set_all
encode_all-decode_loop [] h = ([], unfold encode_all in refl, λ fuel out enough. refl)
encode_all-decode_loop (p ∷ ps) h =
    let (rest, e, back) = encode_all-decode_loop ps h.1 in
    (
      p.0 ∷ length p.1 ∷ (p.1 ++ rest),
      encode_all-cons p ps rest h.0 e,
      λ fuel out enough. read_back p ps rest back fuel out enough,
    )

-- Tags in ascending order, above the given one.
abbrev pub IsAscending : ℕ → List (ℕ × Buffer) → Type 0
IsAscending n [] = Unit
IsAscending n (p ∷ ps) = (n < p.0) × IsAscending p.0 ps

IsAscending-from : (m n : ℕ) (ps : List (ℕ × Buffer)) → m ≤ n → IsAscending n ps → IsAscending m ps
IsAscending-from m n [] h up = tt
IsAscending-from m n (p ∷ ps) h up = (omega (arith, up.0), up.1)

pushed-IsAscending :
    (e : Encoding) (n tag : ℕ) (o : Option Text) (rest : List (ℕ × Buffer))
    → n < tag
    → IsAscending tag rest
    → IsAscending n (pushed e tag o ++ rest)
pushed-IsAscending e n tag none rest h up = IsAscending-from n tag rest (omega arith) up
pushed-IsAscending e n tag (some []) rest h up = IsAscending-from n tag rest (omega arith) up
pushed-IsAscending e n tag (some (c ∷ cs)) rest h up = (h, up)

abbrev AtMost : ℕ → List (ℕ × Buffer) → Type 0
AtMost n out = All (λ p. p.0 ≤ n) out

set_tag-fresh :
    (tag n : ℕ) (value : Buffer) (out : List (ℕ × Buffer))
    → n < tag
    → AtMost n out
    → (set_tag tag value out ≡ out ++ (tag, value) ∷ []) × AtMost tag (out ++ (tag, value) ∷ [])
unfolding set_tag
set_tag-fresh tag n value [] h below = (refl, (omega arith, tt))
set_tag-fresh tag n value (p ∷ ps) h below =
    let (e, low) = set_tag-fresh tag n value ps h below.1 in
    let other : (p.0 == tag) ≡ false = ground (arith, below.0) in
    (rw (other, e) refl, (omega (arith, below.0), low))

set_all-IsAscending :
    (ps : List (ℕ × Buffer)) (n : ℕ) (out : List (ℕ × Buffer))
    → IsAscending n ps
    → AtMost n out
    → set_all ps out ≡ out ++ ps
unfolding set_all
set_all-IsAscending [] n out up below = sym (append-nil out)
set_all-IsAscending (p ∷ ps) n out up below =
    let (e, low) = set_tag-fresh p.0 n p.1 out up.0 below in
    ap (set_all ps) e
    ∙ set_all-IsAscending ps p.0 (out ++ p ∷ []) up.1 low
    ∙ append_assoc out (p ∷ []) ps

last-IsAscending :
    (e : Encoding) (n tag : ℕ) (o : Option Text) → n < tag → IsAscending n (pushed e tag o)
last-IsAscending e n tag none h = tt
last-IsAscending e n tag (some []) h = tt
last-IsAscending e n tag (some (c ∷ cs)) h = (h, tt)

parts-IsAscending : (e : Encoding) (f : QrFields) → IsAscending 0 (parts e f)
unfolding parts
parts-IsAscending e f = (
  omega arith,
  (
    omega arith,
    (
      omega arith,
      (
        omega arith,
        (
          omega arith,
          pushed-IsAscending e 5 6 f.invoice_hash _ (omega arith) (
              pushed-IsAscending e 6 7 f.signature _ (omega arith) (
                pushed-IsAscending e 7 8 f.public_key _ (omega arith)
                  (last-IsAscending e 8 9 f.stamp_signature (omega arith)))),
        ),
      ),
    ),
  ),
)

-- A QR payload whose values are at most 255 bytes long is built, and reading it gives back each tag
-- with its value, and no other; the loop ends within the fuel it is given.
pub build_tlv-decode_tlv :
    (e : Encoding) (f : QrFields)
    → All IsShort (parts e f)
    → (bs : Buffer) × (build_tlv e f ≡ some bs) × (decode_tlv bs ≡ decoded (parts e f))
unfolding build_tlv decode_tlv
build_tlv-decode_tlv e f short =
    let (bs, built, back) = encode_all-decode_loop (parts e f) short in
    (
      bs,
      built,
      back (length bs) [] (omega arith)
          ∙ ap decoded (set_all-IsAscending (parts e f) 0 [] (parts-IsAscending e f) tt),
    )
