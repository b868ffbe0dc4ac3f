-- ===== src/Memory/Ops/Laws.antt =====
-- Reordering entries, in src/hermes_vylen_gateway/memory.py, loses none and makes none up.
use mathlib.Core.List.{Perm}
use mathlib.Core.List.Perm
use hermes_vylen_gateway.Prelude.{
  ℕ, zero, suc, ◌+◌, ◌-◌, ◌≡◌, refl, All, List, [], ◌∷◌, Option, none, some, ltb, subst, length,
  get_elem?, if◌then◌else◌,
}
use hermes_vylen_gateway.Prelude.Text.{Text}
use hermes_vylen_gateway.Memory.Ops.{
  Answer, ok, raised, reorder, op_index, pop, insert, move, apply_op, apply_ops, MemoryOp, add,
  replace, remove, unsupported, ◌>>=◌,
}

module _ {ℓ} {A : Type ℓ} where
  pop-perm : (xs : List A) (i : ℕ) (x : A) → get_elem? xs i ≡ some x → Perm (x ∷ pop i xs) xs
  unfolding pop
  pop-perm [] i x h = absurd (cc)
  pop-perm (y ∷ xs) zero x h =
      let e : y ≡ x = cc in subst (λ z. Perm (z ∷ xs) (y ∷ xs)) e (Perm.refl (y ∷ xs))
  pop-perm (y ∷ xs) (suc i) x h =
      Perm.trans (Perm.swap y x (pop i xs)) (Perm.cons y (pop-perm xs i x h))

  insert-perm : (i : ℕ) (x : A) (xs : List A) → Perm (insert i x xs) (x ∷ xs)
  unfolding insert
  insert-perm zero x xs = Perm.refl (x ∷ xs)
  insert-perm (suc i) x [] = Perm.refl (x ∷ [])
  insert-perm (suc i) x (y ∷ xs) = Perm.trans (Perm.cons y (insert-perm i x xs)) (Perm.swap x y xs)

move-perm : (from to : ℕ) (es : List Text) → Perm (move from to es) es
unfolding move
move-perm from to es = go (get_elem? es from) refl
  where
    go : (o : Option Text) → get_elem? es from ≡ o → Perm (move from to es) es
    go none h = rw (h, move) (Perm.refl es)
    go (some x) h =
        rw (h, move)
          (Perm.trans (insert-perm (if ltb from to then to - 1 else to) x (pop from es))
            (pop-perm es from x h))

-- What an answer that came about in two parts was made of.
pub >>=-eq-ok {ℓ κ} :
    {S : Type ℓ} {T : Type κ} (first : Answer S) (then_do : S → Answer T) {t : T}
    → (first >>= then_do) ≡ ok t
    → (s : S) × (first ≡ ok s) × (then_do s ≡ ok t)
>>=-eq-ok (raised e) then_do p = absurd (cc)
>>=-eq-ok (ok s) then_do p = (s, refl, p)

abbrev pub IsReorder : MemoryOp → Type 0
IsReorder (reorder from to) = Unit
IsReorder _ = ⊥

apply_op-perm :
    (es es' : List Text) (op : MemoryOp) → IsReorder op → apply_op es op ≡ ok es' → Perm es' es
unfolding apply_op
apply_op-perm es es' (add t) r h = absurd r
apply_op-perm es es' (replace i t) r h = absurd r
apply_op-perm es es' (remove i) r h = absurd r
apply_op-perm es es' unsupported r h = absurd r
apply_op-perm es es' (reorder from_index to_index) r h =
    let (from, f, rest) = >>=-eq-ok (op_index from_index (length es)) _ h in
    let (to, t, done) = >>=-eq-ok (op_index to_index (length es + 1)) _ rest in
    let e : move from to es ≡ es' = cc in subst (λ z. Perm z es) e (move-perm from to es)

-- A request of reorderings gives the same entries in another order: none is lost, made up or changed.
pub apply_ops-perm :
    (es es' : List Text) (ops : List MemoryOp)
    → All IsReorder ops
    → apply_ops es ops ≡ ok es'
    → Perm es' es
unfolding apply_ops
apply_ops-perm es es' [] r h = let e : es ≡ es' = cc in subst (λ z. Perm z es) e (Perm.refl es)
apply_ops-perm es es' (op ∷ ops) r h =
    let (mid, first, rest) = >>=-eq-ok (apply_op es op) _ h in
    Perm.trans (apply_ops-perm mid es' ops r.1 rest) (apply_op-perm es mid op r.0 first)
