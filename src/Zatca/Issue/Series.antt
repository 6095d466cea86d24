-- ===== src/Zatca/Issue/Series.antt =====
-- Invoices that are issued one after the other make an intact chain without a gap.
use tailor_erp.Prelude.{
  ℕ, ◌+◌, ◌≤◌, ◌<◌, ◌≡◌, refl, sym, ap, ◌∙◌, inl, inr, true, false, some, List, [], ◌∷◌, ◌++◌, map,
  arith, ◌==◌, ==_iff, Bool-cases, negsuc, not_found, Result, ok, ok_inj, or_throw, >>=-eq-ok,
  length, find, All, All-mono, or_throw-eq-ok, if-eq-ok, All-find, subst,
}
use tailor_erp.Zatca.Chain.{same_hash, chain_loop, find_chain_break}
use tailor_erp.Zatca.Issue.{
  TaxInvoice, has_id, or_zero, is_some, is_issued, sort_by_icv, series, last_from, last, or_genesis,
  slot_after, allocate_chain_slot, issued_row, issue, link_of, icv_gaps, verify_chain,
}
use tailor_erp.Zatca.Issue.Sorting.{IsBelow, series_without, series_greatest, update_row_lem}

-- Consecutive counters from a number, each invoice with the hash of the one before it.
abbrev pub IsSeries : ℕ → ℕ → List TaxInvoice → Type 0
IsSeries k previous [] = Unit
IsSeries k previous (x ∷ xs) =
    (x.icv ≡ some k)
    × (x.previous_hash ≡ some previous)
    × ((h : ℕ) × (x.invoice_hash ≡ some h) × IsSeries (k + 1) h xs)

abbrev end_hash : ℕ → List TaxInvoice → ℕ
end_hash previous [] = previous
end_hash previous (x ∷ xs) = end_hash (or_genesis previous x.invoice_hash) xs

slot_lem :
    (genesis k previous : ℕ) (x : TaxInvoice) (xs : List TaxInvoice)
    → IsSeries k previous (x ∷ xs)
    → slot_after genesis (some (last_from x xs)) ≡ (k + length (x ∷ xs), end_hash previous (x ∷ xs))
slot_lem genesis k previous x [] (numbered, linked, (h, hashed, rest)) = rw (numbered, hashed) refl
slot_lem genesis k previous x (y ∷ ys) (numbered, linked, (h, hashed, rest)) =
    let e : k + 1 + length (y ∷ ys) ≡ k + length (x ∷ y ∷ ys) = omega arith in
    slot_lem genesis (k + 1) h y ys rest ∙ rw hashed (ap (λ n. (n, end_hash h (y ∷ ys))) e)

slot_of_series :
    (genesis : ℕ) (xs : List TaxInvoice)
    → IsSeries 1 genesis xs
    → slot_after genesis (last xs) ≡ (1 + length xs, end_hash genesis xs)
slot_of_series genesis [] h = refl
slot_of_series genesis (x ∷ xs) h = slot_lem genesis 1 genesis x xs h

IsSeries-append :
    (k previous : ℕ) (xs : List TaxInvoice) (y : TaxInvoice) (h : ℕ)
    → IsSeries k previous xs
    → y.icv ≡ some (k + length xs)
    → y.previous_hash ≡ some (end_hash previous xs)
    → y.invoice_hash ≡ some h
    → IsSeries k previous (xs ++ (y ∷ []))
IsSeries-append k previous [] y h series numbered linked hashed =
    let e : k + 0 ≡ k = omega arith in (numbered ∙ ap some e, linked, (h, hashed, tt))
IsSeries-append k previous (x ∷ xs) y h (n, l, (hx, hashed_x, rest)) numbered linked hashed =
    let e : k + length (x ∷ xs) ≡ k + 1 + length xs = omega arith in
    (
      n,
      l,
      (
        hx,
        hashed_x,
        IsSeries-append (k + 1) hx xs y h rest (numbered ∙ ap some e) (rw hashed_x at linked)
            hashed,
      ),
    )

below_end :
    (k previous : ℕ) (xs : List TaxInvoice) (n : ℕ)
    → IsSeries k previous xs
    → k + length xs ≤ n
    → All (λ (y : TaxInvoice). or_zero y.icv < n) xs
below_end k previous [] n series le = tt
below_end k previous (x ∷ xs) n (numbered, _, (h, _, rest)) le =
    (rw numbered (omega (arith, le)), below_end (k + 1) h xs n rest (omega (arith, le)))

same_hash_refl : (a : ℕ) → same_hash (some a) (some a) ≡ true
same_hash_refl a = ground arith

chain_loop_intact :
    (i k previous : ℕ) (xs : List TaxInvoice)
    → IsSeries k previous xs
    → chain_loop i (some previous) (map link_of xs) ≡ negsuc 0
unfolding chain_loop
chain_loop_intact i k previous [] series = refl
chain_loop_intact i k previous (x ∷ xs) (numbered, linked, (h, hashed, rest)) =
    rw (linked, hashed, same_hash_refl previous) (chain_loop_intact (i + 1) (k + 1) h xs rest)

icv_gaps_none :
    (i previous : ℕ) (xs : List TaxInvoice) → IsSeries (i + 1) previous xs → icv_gaps i xs ≡ []
unfolding icv_gaps
icv_gaps_none i previous [] series = refl
icv_gaps_none i previous (x ∷ xs) (numbered, linked, (h, hashed, rest)) =
    rw (numbered, (==_iff (i + 1) (i + 1)).1 refl) (icv_gaps_none (i + 1) h xs rest)

module _ (genesis : ℕ) (document : TaxInvoice → ℕ → ℕ → Result (ℕ × ℕ)) where
  -- Every series is intact, and the invoices with a UUID are those with a counter.
  pub record IsArchive (rows : List TaxInvoice) : Type 0 where
    pub chains : (org : ℕ) → IsSeries 1 genesis (series org rows)
    pub marked : All (λ (x : TaxInvoice). is_some x.zatca_uuid ≡ is_some x.icv) rows

  -- Invoices that are drafted, and invoices that are issued.
  pub data Run : List TaxInvoice → Type 0 where
    empty : Run []
    drafted :
        (x : TaxInvoice) (rows : List TaxInvoice)
        → is_some x.zatca_uuid ≡ false
        → is_some x.icv ≡ false
        → Run rows
        → Run (x ∷ rows)
    issued :
        (id uuid : ℕ) (rows after : List TaxInvoice)
        → issue genesis document id uuid rows ≡ ok after
        → Run rows
        → Run after

  not_issued : (org : ℕ) (x : TaxInvoice) → is_some x.icv ≡ false → is_issued org x ≡ false
  not_issued org x h = ground arith

  foreign :
      (org : ℕ) (x : TaxInvoice) → (x.organization_id == org) ≡ false → is_issued org x ≡ false
  foreign org x h = rw h refl

  -- The write of issue, with the rows before and after the invoice.
  issue_one :
      (uuid : ℕ) (stamp : ℕ × ℕ) (x : TaxInvoice) (xs ys : List TaxInvoice)
      → is_some x.icv ≡ false
      → IsArchive (xs ++ (x ∷ ys))
      → IsArchive (
          xs
          ++ (issued_row genesis document uuid
                (allocate_chain_slot genesis x.organization_id (xs ++ (x ∷ ys)))
                stamp
                x
              ∷ ys))
  unfolding allocate_chain_slot
  issue_one uuid stamp x xs ys open_row archive =
      let mine = x.organization_id in
      let slot = slot_after genesis (last (series mine (xs ++ (x ∷ ys)))) in
      let y = issued_row genesis document uuid slot stamp x in
      let before = archive.chains mine in
      let without : (org : ℕ) → series org (xs ++ (x ∷ ys)) ≡ series org (xs ++ ys) =
        λ org. series_without org x xs ys (not_issued org x open_row) in
      let at = slot_of_series genesis (series mine (xs ++ (x ∷ ys))) before in
      let counted : y.icv ≡ some (1 + length (series mine (xs ++ (x ∷ ys)))) =
        ap (λ (s : ℕ × ℕ). some (s.0)) at in
      let linked : y.previous_hash ≡ some (end_hash genesis (series mine (xs ++ (x ∷ ys)))) =
        ap (λ (s : ℕ × ℕ). some (s.1)) at in
      record {
        chains = λ org. elim (Bool-cases (mine == org)) [
          | inr other ↦
              subst (IsSeries 1 genesis)
                (without org ∙ sym (series_without org y xs ys (foreign org y other)))
                (archive.chains org)
          | inl same ↦
              let is_org = (==_iff mine org).0 same in
              subst (λ o. IsSeries 1 genesis (series o (xs ++ (y ∷ ys)))) is_org
                (subst (IsSeries 1 genesis)
                  (ap (λ l. l ++ (y ∷ [])) (without mine)
                    ∙ sym (
                        series_greatest mine y xs ys (issued_mine y mine slot.0 refl refl) (
                          subst (All (IsBelow y)) (without mine) (
                            All-mono
                              (λ (z : TaxInvoice).
                                or_zero z.icv < 1 + length (series mine (xs ++ (x ∷ ys))))
                              (IsBelow y) (series mine (xs ++ (x ∷ ys))) (λ z h. rw counted h)
                              (below_end 1 genesis (series mine (xs ++ (x ∷ ys))) _ before
                                (omega arith))))))
                  (IsSeries-append 1 genesis (series mine (xs ++ (x ∷ ys))) y _ before counted
                    linked refl))
        ];
        marked = remark xs ys x y refl archive.marked;
      }
    where
      issued_mine :
          (y : TaxInvoice) (org n : ℕ)
          → y.icv ≡ some n
          → y.organization_id ≡ org
          → is_issued org y ≡ true
      issued_mine y org n e f = rw (e, f, (==_iff org org).1 refl) refl

      remark :
          (xs ys : List TaxInvoice) (x y : TaxInvoice)
          → is_some y.zatca_uuid ≡ is_some y.icv
          → All (λ (x : TaxInvoice). is_some x.zatca_uuid ≡ is_some x.icv) (xs ++ (x ∷ ys))
          → All (λ (x : TaxInvoice). is_some x.zatca_uuid ≡ is_some x.icv) (xs ++ (y ∷ ys))
      remark [] ys x y e h = (e, h.1)
      remark (z ∷ xs) ys x y e h = (h.0, remark xs ys x y e h.1)

  issue-IsArchive :
      (id uuid : ℕ) (rows : List TaxInvoice) {after : List TaxInvoice}
      → issue genesis document id uuid rows ≡ ok after
      → IsArchive rows
      → IsArchive after
  unfolding issue
  issue-IsArchive id uuid rows {after} done archive =
      let (x, found_ok, h) = >>=-eq-ok (or_throw (find (has_id id) rows) not_found) _ done in
      let found = or_throw-eq-ok (find (has_id id) rows) not_found found_ok in
      let slot = allocate_chain_slot genesis x.organization_id rows in
      elim (if-eq-ok (is_some x.zatca_uuid) _ _ h) [
        | inl (_, e) ↦ subst IsArchive (ok_inj e) archive
        | inr (draft, h2) ↦
            let (stamp, _, e) = >>=-eq-ok (document x slot.0 slot.1) _ h2 in
            let (marked, _) =
              All-find (λ (y : TaxInvoice). is_some y.zatca_uuid ≡ is_some y.icv) (has_id id) rows
                archive.marked found in
            let (xs, ys, place, write) =
              update_row_lem id (issued_row genesis document uuid slot stamp) rows found in
            subst IsArchive
              (ap
                  (λ l.
                    xs
                    ++ (issued_row genesis document uuid
                          (allocate_chain_slot genesis x.organization_id l) stamp x
                        ∷ ys))
                  (sym place)
                ∙ sym write
                ∙ ok_inj e)
              (issue_one uuid stamp x xs ys (sym marked ∙ draft) (subst IsArchive place archive))
      ]

  draft-IsArchive :
      (x : TaxInvoice) (rows : List TaxInvoice)
      → is_some x.zatca_uuid ≡ false
      → is_some x.icv ≡ false
      → IsArchive rows
      → IsArchive (x ∷ rows)
  draft-IsArchive x rows no_uuid no_icv archive = record {
    chains = λ org.
        subst (IsSeries 1 genesis) (sym (series_without org x [] rows (not_issued org x no_icv)))
          (archive.chains org);
    marked = (no_uuid ∙ sym no_icv, archive.marked);
  }

  Run-IsArchive : {rows : List TaxInvoice} → Run rows → IsArchive rows
  unfolding series sort_by_icv
  Run-IsArchive empty = record { chains = λ org. tt; marked = tt }
  Run-IsArchive (drafted x rows no_uuid no_icv run) =
      draft-IsArchive x rows no_uuid no_icv (Run-IsArchive run)
  Run-IsArchive (issued id uuid rows after done run) =
      issue-IsArchive id uuid rows done (Run-IsArchive run)

-- However invoices are drafted and issued, by any organisations, the check of every organisation finds
-- its chain whole and its counters without a gap: they are 1, 2, 3 and so on, each invoice carries the
-- hash of the one before it, and the first one carries the genesis hash.
pub verify_chain_sound :
    (genesis : ℕ) (document : TaxInvoice → ℕ → ℕ → Result (ℕ × ℕ)) (org : ℕ)
    {rows : List TaxInvoice}
    → Run genesis document rows
    → ((verify_chain genesis org rows).break_index ≡ negsuc 0)
      × ((verify_chain genesis org rows).icv_gaps ≡ [])
      × IsSeries 1 genesis (series org rows)
unfolding verify_chain find_chain_break
verify_chain_sound genesis document org {rows} run =
    let chain = (Run-IsArchive genesis document run).chains org in
    (
      chain_loop_intact 0 1 genesis (series org rows) chain,
      icv_gaps_none 0 genesis (series org rows) chain,
      chain,
    )
