-- ===== src/Ledger/Trial/Sums.antt =====
-- The sums of the trial balance, account by account and entry by entry.
use tailor_erp.Prelude.{
  ℕ, ◌≡◌, ◌≢◌, refl, sym, ap, ◌∙◌, inl, inr, Bool, false, ◌&&◌, Option, List, [], ◌∷◌, map, arith,
  ◌==◌, ==_iff, if◌then◌else◌, Bool-cases, ℤ, pos, ◌+ℤ◌, int_laws, parts_of_eq, keep, any, sum_of,
  All, sum_of-append, subst,
}
use tailor_erp.Ledger.{Account, LedgerLine, JournalEntry, Books}
use tailor_erp.Ledger.Trial.{Joined, join_entry, joined_lines, account_sum}

-- The primary key of the accounts.
abbrev pub DistinctIds : List Account → Type 0
DistinctIds [] = Unit
DistinctIds (a ∷ accounts) = All (λ (c : Account). c.id ≢ a.id) accounts × DistinctIds accounts

-- The account belongs to the organisation.
unfoldable pub owns : ℕ → ℕ → List Account → Bool
owns org id accounts = any (λ (a : Account). (a.organization_id == org) && (id == a.id)) accounts

-- The accounts of an entry's lines are those of its organisation alone.
abbrev pub AreHome : List Account → ℕ → List LedgerLine → Type 0
AreHome accounts org lines =
    All (λ (l : LedgerLine). (x : ℕ) → owns x l.account_id accounts ≡ (org == x)) lines

sum_of_zero {ℓ} : {A : Type ℓ} (xs : List A) → sum_of (λ x. pos 0) xs ≡ pos 0
sum_of_zero [] = refl
sum_of_zero (x ∷ xs) = omega (int_laws, parts_of_eq (sum_of_zero xs))

sum_of-add {ℓ} :
    {A : Type ℓ} (f g h : A → ℤ) (xs : List A)
    → ((x : A) → f x ≡ g x +ℤ h x)
    → sum_of f xs ≡ sum_of g xs +ℤ sum_of h xs
sum_of-add f g h [] e = omega int_laws
sum_of-add f g h (x ∷ xs) e =
    omega (int_laws, parts_of_eq (e x), parts_of_eq (sum_of-add f g h xs e))

pub sum_of-map {ℓ} :
    {A B : Type ℓ} (f : B → ℤ) (g : A → B) (xs : List A)
    → sum_of f (map g xs) ≡ sum_of (λ x. f (g x)) xs
sum_of-map f g [] = refl
sum_of-map f g (x ∷ xs) = ap (λ t. f (g x) +ℤ t) (sum_of-map f g xs)

module _ (org : ℕ) (accounts : List Account) where
  abbrev pub mine : Account → Bool
  mine a = a.organization_id == org

pub not_owned :
    (org id : ℕ) (accounts : List Account)
    → All (λ (c : Account). c.id ≢ id) accounts
    → owns org id accounts ≡ false
unfolding owns
not_owned org id [] h = refl
not_owned org id (a ∷ accounts) h =
    let miss : (id == a.id) ≡ false = ne_test id a.id h.0 in
    rw (miss, not_owned org id accounts h.1) (ground arith)
  where
    ne_test : (a b : ℕ) → b ≢ a → (a == b) ≡ false
    ne_test a b h = ground (arith, h)

-- One amount, summed over the accounts of an organisation that it stands on.
amount_once :
    (org id : ℕ) (d : ℤ) (accounts : List Account)
    → DistinctIds accounts
    → sum_of
        (λ (a : Account). if id == a.id then d else pos 0)
        (keep (λ (a : Account). a.organization_id == org) accounts)
      ≡ (if owns org id accounts then d else pos 0)
unfolding owns
amount_once org id d [] h = refl
amount_once org id d (a ∷ accounts) h =
    let rest = amount_once org id d accounts h.1 in
    elim (Bool-cases (a.organization_id == org)) [
      | inr foreign ↦ rw foreign rest
      | inl mine_a ↦ elim (Bool-cases (id == a.id)) [
        | inr miss ↦ rw (mine_a, miss) (omega (int_laws, parts_of_eq rest))
        | inl hit ↦
            let same = (==_iff id a.id).0 hit in
            let alone =
              not_owned org id accounts
                (subst (λ k. All (λ (c : Account). c.id ≢ k) accounts) (sym same) h.0) in
            let none_left : sum_of (λ (a : Account). if id == a.id then d else pos 0)
                  (keep (λ (a : Account). a.organization_id == org) accounts)
                ≡ pos 0 =
              rw alone at rest in
            rw (mine_a, hit) (omega (int_laws, parts_of_eq none_left))
      ]
    ]

module _ (f : LedgerLine → ℤ) where
  abbrev share : ℕ → List Account → Joined → ℤ
  share org accounts j = if owns org j.line.account_id accounts then f j.line else pos 0

  account_sum-cons :
      (j : Joined) (js : List Joined) (a : Account)
      → account_sum f (j ∷ js) a
        ≡ (if j.line.account_id == a.id then f j.line else pos 0) +ℤ account_sum f js a
  account_sum-cons j js a = elim (Bool-cases (j.line.account_id == a.id)) [
    | inl hit ↦ rw hit refl
    | inr miss ↦ rw miss (omega int_laws)
  ]

  -- Summed account by account or line by line, the amounts are the same.
  by_lines :
      (org : ℕ) (accounts : List Account) (joined : List Joined)
      → DistinctIds accounts
      → sum_of (account_sum f joined) (keep (λ (a : Account). a.organization_id == org) accounts)
        ≡ sum_of (share org accounts) joined
  by_lines org accounts [] keys = sum_of_zero _
  by_lines org accounts (j ∷ js) keys =
      let split =
        sum_of-add (account_sum f (j ∷ js))
          (λ (a : Account). if j.line.account_id == a.id then f j.line else pos 0)
          (account_sum f js) (keep (λ (a : Account). a.organization_id == org) accounts)
          (account_sum-cons j js) in
      omega (
        int_laws,
        parts_of_eq split,
        parts_of_eq (amount_once org j.line.account_id (f j.line) accounts keys),
        parts_of_eq (by_lines org accounts js keys),
      )

  -- The lines of one entry.
  entry_share :
      (posted_at : JournalEntry → ℕ) (as_of : Option ℕ) (org : ℕ) (accounts : List Account)
      (e : JournalEntry) (lines : List LedgerLine)
      → AreHome accounts e.organization_id lines
      → sum_of (share org accounts) (map (join_entry posted_at as_of e) lines)
        ≡ (if e.organization_id == org then sum_of f lines else pos 0)
  entry_share posted_at as_of org accounts e [] home =
      elim (Bool-cases (e.organization_id == org)) [ inl t ↦ rw t refl | inr t ↦ rw t refl ]
  entry_share posted_at as_of org accounts e (l ∷ lines) home =
      let rest = entry_share posted_at as_of org accounts e lines home.1 in
      elim (Bool-cases (e.organization_id == org)) [
        | inl t ↦ rw (home.0 org ∙ t, t) (omega (int_laws, parts_of_eq (rw t at rest)))
        | inr t ↦ rw (home.0 org ∙ t, t) (omega (int_laws, parts_of_eq (rw t at rest)))
      ]

  abbrev pub posted : ℕ → JournalEntry → ℤ
  posted org e = if e.organization_id == org then sum_of f e.lines else pos 0

  by_entries :
      (posted_at : JournalEntry → ℕ) (as_of : Option ℕ) (org : ℕ) (accounts : List Account)
      (entries : List JournalEntry)
      → All (λ (e : JournalEntry). AreHome accounts e.organization_id e.lines) entries
      → sum_of (share org accounts) (joined_lines posted_at as_of entries)
        ≡ sum_of (posted org) entries
  unfolding joined_lines
  by_entries posted_at as_of org accounts [] home = refl
  by_entries posted_at as_of org accounts (e ∷ entries) home = omega (
    int_laws,
    parts_of_eq (
        sum_of-append (share org accounts) (map (join_entry posted_at as_of e) e.lines)
          (joined_lines posted_at as_of entries)),
    parts_of_eq (entry_share posted_at as_of org accounts e e.lines home.0),
    parts_of_eq (by_entries posted_at as_of org accounts entries home.1),
  )

  -- Whatever the date, the sums of the accounts of an organisation are those of its entries.
  pub account_sums :
      (posted_at : JournalEntry → ℕ) (as_of : Option ℕ) (org : ℕ) (books : Books)
      → DistinctIds books.accounts
      → All (λ (e : JournalEntry). AreHome books.accounts e.organization_id e.lines) books.entries
      → sum_of
          (account_sum f (joined_lines posted_at as_of books.entries))
          (keep (λ (a : Account). a.organization_id == org) books.accounts)
        ≡ sum_of (posted org) books.entries
  account_sums posted_at as_of org books keys home =
      by_lines org books.accounts (joined_lines posted_at as_of books.entries) keys
      ∙ by_entries posted_at as_of org books.accounts books.entries home
