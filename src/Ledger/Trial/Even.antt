-- ===== src/Ledger/Trial/Even.antt =====
-- The trial balance of the books that postings and set-ups of charts lead to.
use tailor_erp.Prelude.{
  ℕ, ◌≡◌, refl, sym, ◌∙◌, inl, inr, true, Option, List, [], ◌∷◌, map, arith, ◌==◌, if◌then◌else◌,
  Bool-cases, ℤ, Decimal, pos, eqb_ℤ, int_laws, parts_of_eq, ok, keep, sum_of, sum_from, All,
  sum_from-sum_of,
}
use tailor_erp.Ledger.{AccountCode, JournalSource, Account, PostLine, JournalEntry, Books, post}
use tailor_erp.Ledger.Journal.{IsBooked}
use tailor_erp.Ledger.Trial.{
  ensure_chart_of_accounts, TrialRow, joined_lines, trial_row, trial_balance,
}
use tailor_erp.Ledger.Trial.Sums.{sum_of-map, posted, account_sums}
use tailor_erp.Ledger.Trial.Kept.{IsKept, post-IsKept, ensure_chart_of_accounts-IsKept}

-- What the service does to the books: charts that are set up, and postings of any kind.
pub data Run : Books → Type 0 where
  empty : Run (record { accounts = []; entries = [] })
  set_up :
      (org : ℕ) (draw : AccountCode → ℕ) (books : Books) (n : ℕ) (after : Books)
      → Run books
      → ensure_chart_of_accounts org draw books ≡ ok (n, after)
      → Run after
  posted_to :
      (org : ℕ) (source : JournalSource) (reference : ℕ) (ls : List PostLine) (books after : Books)
      → Run books
      → post org source reference ls books ≡ ok after
      → Run after

Run-IsKept : {books : Books} → Run books → IsKept books
Run-IsKept empty = record { booked = tt; keys = tt; home = tt }
Run-IsKept (set_up org draw books n after run done) =
    ensure_chart_of_accounts-IsKept org draw books done (Run-IsKept run)
Run-IsKept (posted_to org source reference ls books after run done) =
    post-IsKept org source reference ls books done (Run-IsKept run)

-- The total of the entries of an organisation.
abbrev pub turnover : ℕ → List JournalEntry → Decimal
turnover org entries =
    sum_of (λ (e : JournalEntry). if e.organization_id == org then e.total_debit else pos 0) entries

debits_posted :
    (org : ℕ) (entries : List JournalEntry)
    → All IsBooked entries
    → sum_of (posted (λ l. l.debit) org) entries ≡ turnover org entries
debits_posted org [] booked = refl
debits_posted org (e ∷ entries) booked =
    let rest = debits_posted org entries booked.1 in
    elim (Bool-cases (e.organization_id == org)) [
      | inl own ↦ rw own (omega (int_laws, parts_of_eq (booked.0.debits), parts_of_eq rest))
      | inr foreign ↦ rw foreign (omega (int_laws, parts_of_eq rest))
    ]

credits_posted :
    (org : ℕ) (entries : List JournalEntry)
    → All IsBooked entries
    → sum_of (posted (λ l. l.credit) org) entries ≡ turnover org entries
credits_posted org [] booked = refl
credits_posted org (e ∷ entries) booked =
    let rest = credits_posted org entries booked.1 in
    elim (Bool-cases (e.organization_id == org)) [
      | inl own ↦ rw own (
          omega (
            int_laws,
            parts_of_eq (booked.0.credits),
            parts_of_eq (booked.0.even),
            parts_of_eq rest,
          ))
      | inr foreign ↦ rw foreign (omega (int_laws, parts_of_eq rest))
    ]

eqb_refl : (a b : ℤ) → a ≡ b → eqb_ℤ a b ≡ true
eqb_refl a b e = rw e (same b)
  where
    same : (b : ℤ) → eqb_ℤ b b ≡ true
    same b = ground arith

-- Whatever charts are set up and whatever entries are posted, by any organisation, the trial balance
-- of an organisation balances: the debits of all its accounts and the credits of all its accounts are
-- both the total of all its entries, for any date that is asked for.
pub trial_balance_even :
    (posted_at : JournalEntry → ℕ) (org : ℕ) (as_of : Option ℕ) {books : Books}
    → Run books
    → ((trial_balance posted_at org as_of books).total_debit ≡ turnover org books.entries)
      × ((trial_balance posted_at org as_of books).total_credit ≡ turnover org books.entries)
      × ((trial_balance posted_at org as_of books).balanced ≡ true)
unfolding trial_balance
trial_balance_even posted_at org as_of {books} run =
    let kept = Run-IsKept run in
    let joined = joined_lines posted_at as_of books.entries in
    let own = keep (λ (a : Account). a.organization_id == org) books.accounts in
    let rows = map (trial_row joined) own in
    let d1 = sum_from-sum_of (λ (r : TrialRow). r.debit) (pos 0) rows in
    let d2 = sum_of-map (λ (r : TrialRow). r.debit) (trial_row joined) own in
    let d3 = account_sums (λ l. l.debit) posted_at as_of org books kept.keys kept.home in
    let d4 = debits_posted org books.entries kept.booked in
    let c1 = sum_from-sum_of (λ (r : TrialRow). r.credit) (pos 0) rows in
    let c2 = sum_of-map (λ (r : TrialRow). r.credit) (trial_row joined) own in
    let c3 = account_sums (λ l. l.credit) posted_at as_of org books kept.keys kept.home in
    let c4 = credits_posted org books.entries kept.booked in
    let debits : sum_from (λ (r : TrialRow). r.debit) (pos 0) rows ≡ turnover org books.entries =
      omega (int_laws, parts_of_eq d1, parts_of_eq (d2 ∙ d3 ∙ d4)) in
    let credits : sum_from (λ (r : TrialRow). r.credit) (pos 0) rows ≡ turnover org books.entries =
      omega (int_laws, parts_of_eq c1, parts_of_eq (c2 ∙ c3 ∙ c4)) in
    (debits, credits, eqb_refl _ _ (debits ∙ sym credits))
