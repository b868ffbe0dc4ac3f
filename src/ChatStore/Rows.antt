-- ===== src/ChatStore/Rows.antt =====
-- The events of one chat in `chat_events`: above the chat's floor they are numbered with no gap up to
-- its latest number.
use hermes_vylen_gateway.Prelude.{
  ℕ, zero, suc, ◌+◌, ◌-◌, ◌≤◌, ◌<◌, ◌≡◌, refl, ap, sym, ◌∙◌, inl, inr, Bool, true, false, List, [],
  ◌∷◌, ◌++◌, arith, length, All, All-append, length-append, length-drop, subst, Bool-cases, ◌&&◌,
  drop,
}
use native.Mathlib.Nat.{add-zero, add-suc, suc-add}
use hermes_vylen_gateway.ChatStore.Tables.{
  EventRow, select, delete, insert_by_seq, order_by_seq, is_after,
}

-- The sequence numbers are n, n + 1, n + 2 and so on.
abbrev pub SeqFrom : ℕ → List EventRow → Type 0
SeqFrom n [] = Unit
SeqFrom n (e ∷ es) = (e.seq ≡ n) × SeqFrom (suc n) es

-- The sequence numbers ascend from above n.
abbrev pub Above : ℕ → List EventRow → Type 0
Above n [] = Unit
Above n (e ∷ es) = (n < e.seq) × Above e.seq es

pub record Kept (floor latest : ℕ) (rows : List EventRow) : Type 0 where
  pub ascending : Above 0 rows
  pub bounded : All (λ e. e.seq ≤ latest) rows
  pub order : floor ≤ latest
  pub gapless : SeqFrom (suc floor) (select (is_after floor) rows)
  pub last : floor + length (select (is_after floor) rows) ≡ latest

module _ {ℓ} {A : Type ℓ} where
  pub select-append :
      (p : A → Bool) (xs ys : List A) → select p (xs ++ ys) ≡ select p xs ++ select p ys
  unfolding select
  select-append p [] ys = refl
  select-append p (x ∷ xs) ys = ground (arith, select-append p xs ys)

  -- What is deleted would not have been selected.
  pub select-delete :
      (p q : A → Bool) (xs : List A)
      → All (λ x. (p x && q x) ≡ false) xs
      → select p (delete q xs) ≡ select p xs
  unfolding select delete
  select-delete p q [] h = refl
  select-delete p q (x ∷ xs) h = ground (arith, select-delete p q xs h.1)

  -- A stricter selection can be made in two steps.
  pub select-select :
      (p q : A → Bool) (xs : List A)
      → ((x : A) → p x ≡ true → q x ≡ true)
      → select p (select q xs) ≡ select p xs
  unfolding select
  select-select p q [] h = refl
  select-select p q (x ∷ xs) h = elim (Bool-cases (p x)) [
    | inl taken ↦ rw (taken, h x taken) (rw taken (ap (◌∷◌ x) (select-select p q xs h)))
    | inr left ↦ ground (arith, select-select p q xs h)
  ]

  pub select-All {κ} :
      (P : A → Type κ) (p : A → Bool) (xs : List A) → All P xs → All P (select p xs)
  unfolding select
  select-All P p [] h = tt
  select-All P p (x ∷ xs) h = elim (Bool-cases (p x)) [
    | inl taken ↦ rw taken (h.0, select-All P p xs h.1)
    | inr left ↦ rw left (select-All P p xs h.1)
  ]

  pub delete-All {κ} :
      (P : A → Type κ) (p : A → Bool) (xs : List A) → All P xs → All P (delete p xs)
  unfolding delete
  delete-All P p [] h = tt
  delete-All P p (x ∷ xs) h = elim (Bool-cases (p x)) [
    | inl gone ↦ rw gone (delete-All P p xs h.1)
    | inr kept ↦ rw kept (h.0, delete-All P p xs h.1)
  ]

Above-le : (m n : ℕ) (xs : List EventRow) → m ≤ n → Above n xs → Above m xs
Above-le m n [] h a = tt
Above-le m n (x ∷ xs) h a = (omega arith, a.1)

delete-Above :
    (p : EventRow → Bool) (n : ℕ) (xs : List EventRow) → Above n xs → Above n (delete p xs)
unfolding delete
delete-Above p n [] a = tt
delete-Above p n (x ∷ xs) a = elim (Bool-cases (p x)) [
  | inl gone ↦ rw gone (Above-le n x.seq (delete p xs) (omega arith) (delete-Above p x.seq xs a.1))
  | inr kept ↦ rw kept (a.0, delete-Above p x.seq xs a.1)
]

Above-append :
    (n m : ℕ) (xs : List EventRow) (e : EventRow)
    → Above n xs
    → All (λ x. x.seq ≤ m) xs
    → n ≤ m
    → m < e.seq
    → Above n (xs ++ e ∷ [])
Above-append n m [] e a b o h = (omega arith, tt)
Above-append n m (x ∷ xs) e a b o h = (a.0, Above-append x.seq m xs e a.1 b.1 b.0 h)

pub order_by_seq-Above : (n : ℕ) (xs : List EventRow) → Above n xs → order_by_seq xs ≡ xs
unfolding order_by_seq insert_by_seq
order_by_seq-Above n [] a = refl
order_by_seq-Above n (x ∷ []) a = refl
order_by_seq-Above n (x ∷ y ∷ xs) a = rw (order_by_seq-Above x.seq (y ∷ xs) a.1) (ground arith)

pub select-Above :
    (p : EventRow → Bool) (n : ℕ) (xs : List EventRow) → Above n xs → Above n (select p xs)
unfolding select
select-Above p n [] a = tt
select-Above p n (x ∷ xs) a = elim (Bool-cases (p x)) [
  | inl taken ↦ rw taken (a.0, select-Above p x.seq xs a.1)
  | inr left ↦ rw left (Above-le n x.seq (select p xs) (omega arith) (select-Above p x.seq xs a.1))
]

select-SeqFrom_all :
    (n a : ℕ) (xs : List EventRow) → a ≤ n → SeqFrom (suc n) xs → select (is_after a) xs ≡ xs
unfolding select
select-SeqFrom_all n a [] h s = refl
select-SeqFrom_all n a (x ∷ xs) h s =
    ground (arith, select-SeqFrom_all (suc n) a xs (omega arith) s.1)

-- In a numbered list, the events behind a number are its end.
pub select-SeqFrom :
    (n k a : ℕ) (xs : List EventRow)
    → a ≡ n + k
    → SeqFrom (suc n) xs
    → select (is_after a) xs ≡ drop k xs
unfolding select
select-SeqFrom n zero a [] h s = refl
select-SeqFrom n (suc k) a [] h s = refl
select-SeqFrom n zero a (x ∷ xs) h s = select-SeqFrom_all n a (x ∷ xs) (omega arith) s
select-SeqFrom n (suc k) a (x ∷ xs) h s =
    ground (arith, select-SeqFrom (suc n) k a xs (omega arith) s.1)

pub drop-SeqFrom : (n k : ℕ) (xs : List EventRow) → SeqFrom n xs → SeqFrom (n + k) (drop k xs)
drop-SeqFrom n zero xs s = rw add-zero s
drop-SeqFrom n (suc k) [] s = tt
drop-SeqFrom n (suc k) (x ∷ xs) s = rw (add-suc, ← suc-add) (drop-SeqFrom (suc n) k xs s.1)

pub SeqFrom-append :
    (n : ℕ) (xs : List EventRow) (e : EventRow)
    → SeqFrom n xs
    → e.seq ≡ n + length xs
    → SeqFrom n (xs ++ e ∷ [])
SeqFrom-append n [] e s h = (omega arith, tt)
SeqFrom-append n (x ∷ xs) e s h = (s.0, SeqFrom-append (suc n) xs e s.1 (omega arith))

is_after-le : (f a : ℕ) → f ≤ a → (e : EventRow) → is_after a e ≡ true → is_after f e ≡ true
is_after-le f a h e t = ground arith

All-suc : (m : ℕ) (xs : List EventRow) → All (λ e. e.seq ≤ m) xs → All (λ e. e.seq ≤ suc m) xs
All-suc m [] h = tt
All-suc m (x ∷ xs) h = (omega arith, All-suc m xs h.1)

module _ {floor latest : ℕ} {rows : List EventRow} (kept : Kept floor latest rows) where
  -- What is behind a cursor from the floor on.
  pub select-after :
      (a : ℕ)
      → floor ≤ a
      → select (is_after a) rows ≡ drop (a - floor) (select (is_after floor) rows)
  select-after a h =
      sym (select-select (is_after a) (is_after floor) rows (is_after-le floor a h))
      ∙ select-SeqFrom floor (a - floor) a (select (is_after floor) rows) (omega arith) kept.gapless

  -- Behind a cursor from the floor on the numbers follow one another, up to the latest.
  pub after-gapless :
      (a : ℕ)
      → floor ≤ a
      → SeqFrom (suc a) (select (is_after a) rows)
        × (length (select (is_after a) rows) ≡ latest - a)
  after-gapless a h =
      let back : suc floor + (a - floor) ≡ suc a = omega arith in
      rw (select-after a h) (
        subst (λ n. SeqFrom n (drop (a - floor) (select (is_after floor) rows))) back
            (drop-SeqFrom (suc floor) (a - floor) _ kept.gapless),
        omega (arith, length-drop (a - floor) (select (is_after floor) rows), kept.last),
      )

  -- A new event under the next number.
  pub Kept-append : (e : EventRow) → e.seq ≡ suc latest → Kept floor (suc latest) (rows ++ e ∷ [])
  unfolding select
  Kept-append e h =
      let more : select (is_after floor) (rows ++ e ∷ []) ≡ select (is_after floor) rows ++ e ∷ [] =
        select-append (is_after floor) rows (e ∷ [])
        ∙ ap (λ t. select (is_after floor) rows ++ t) (ground (arith, kept.order)) in
      record {
        ascending =
            Above-append 0 latest rows e kept.ascending kept.bounded (omega arith) (omega arith);
        bounded =
            All-append (λ x. x.seq ≤ suc latest) rows (e ∷ []) (All-suc latest rows kept.bounded)
              (omega arith, tt);
        order = omega (arith, kept.order);
        gapless = rw more (SeqFrom-append (suc floor) _ e kept.gapless (omega (arith, kept.last)));
        last =
            rw more
              (omega (arith, length-append (select (is_after floor) rows) (e ∷ []), kept.last));
      }

  pub Kept-raise : (a : ℕ) → floor ≤ a → a ≤ latest → Kept a latest rows
  Kept-raise a h k = record {
    ascending = kept.ascending;
    bounded = kept.bounded;
    order = k;
    gapless = (after-gapless a h).0;
    last = omega (arith, (after-gapless a h).1);
  }

  -- Events up to the floor can go.
  pub Kept-delete :
      (p : EventRow → Bool)
      → All (λ e. (is_after floor e && p e) ≡ false) rows
      → Kept floor latest (delete p rows)
  Kept-delete p h =
      let same = select-delete (is_after floor) p rows h in
      record {
        ascending = delete-Above p 0 rows kept.ascending;
        bounded = delete-All (λ e. e.seq ≤ latest) p rows kept.bounded;
        order = kept.order;
        gapless = rw same (kept.gapless);
        last = rw same (kept.last);
      }

-- A chat with no events.
pub Kept-nil : (n : ℕ) → Kept n n []
unfolding select
Kept-nil n = record {
  ascending = tt;
  bounded = tt;
  order = omega arith;
  gapless = tt;
  last = omega arith;
}
