-- ===== src/Prelude/Dict.antt =====
-- Python's `dict` and `OrderedDict`: an association list in insertion order.
use mathlib.Core.Path.{◌≡◌, refl, sym}
use mathlib.Core.Bool.{Bool, true, false}
use mathlib.Core.Logic.{inl, inr}
use mathlib.Core.Option.{Option, none, some}
use mathlib.Core.List.{List, [], ◌∷◌, ◌++◌, map}
use Prim.Native.Nat.{◌+◌, ◌≤◌, ◌<◌}
use native.Mathlib.Omega.{arith}
use hermes_vylen_gateway.Prelude.Tests.{Eq, Option-cases, Bool-cases, ◌==◌, if◌then◌else◌}
use hermes_vylen_gateway.Prelude.Lists.{length, length-append}

abbrev pub Dict {ℓ κ} : Type ℓ → Type κ → Type (ℓ ⊔ κ)
Dict K V = List (K × V)

module _ {ℓ κ} {K : Type ℓ} {V : Type κ} where
  abbrev pub keys : Dict K V → List K
  keys = map (λ p. p.0)

module _ {ℓ} {K : Type ℓ} ⦃e : Eq K⦄ where
  abbrev pub contains : K → List K → Bool
  contains j [] = false
  contains j (k ∷ ks) = if k == j then true else contains j ks

module _ {ℓ κ} {K : Type ℓ} {V : Type κ} ⦃e : Eq K⦄ where
  -- d.get(k)
  unfoldable pub get : K → Dict K V → Option V
  get k [] = none
  get k ((j, v) ∷ d) = if j == k then some v else get k d

  -- d[k] = v: a new key goes to the end, an old one keeps its place
  unfoldable pub put : K → V → Dict K V → Dict K V
  put k v [] = (k, v) ∷ []
  put k v ((j, w) ∷ d) = if j == k then (k, v) ∷ d else (j, w) ∷ put k v d

  -- d.pop(k, None)
  unfoldable pub remove : K → Dict K V → Dict K V
  remove k [] = []
  remove k ((j, v) ∷ d) = let rest = remove k d in if j == k then rest else (j, v) ∷ rest

  -- d.move_to_end(k), for a key that is there
  unfoldable pub move_to_end : K → Dict K V → Dict K V
  unfolding get remove
  move_to_end k d = elim (get k d) [ none ↦ d | some v ↦ remove k d ++ (k, v) ∷ [] ]

  pub get-put :
      (k j : K) (v : V) (d : Dict K V) → get j (put k v d) ≡ (if k == j then some v else get j d)
  unfolding get put
  get-put k j v [] = refl
  get-put k j v ((i, w) ∷ d) =
      ground (arith, e.beq_iff k j, e.beq_iff i k, e.beq_iff i j, get-put k j v d)

  pub get-remove :
      (k j : K) (d : Dict K V) → get j (remove k d) ≡ (if k == j then none else get j d)
  unfolding get remove
  get-remove k j [] = ground arith
  get-remove k j ((i, v) ∷ d) =
      ground (arith, e.beq_iff k j, e.beq_iff i k, e.beq_iff i j, get-remove k j d)

  pub get-append :
      (j : K) (c d : Dict K V)
      → get j (c ++ d) ≡ (elim (get j c) [ none ↦ get j d | some v ↦ some v ])
  unfolding get
  get-append j [] d = refl
  get-append j ((i, v) ∷ c) d = ground (arith, get-append j c d)

  -- Reordering changes no lookup.
  pub get-move_to_end : (k j : K) (d : Dict K V) → get j (move_to_end k d) ≡ get j d
  unfolding move_to_end get
  get-move_to_end k j d = elim (Option-cases (get k d)) [
    | inl h ↦ rw (h, move_to_end)
    | inr (v, h) ↦
        rw (h, move_to_end)
          (ground (arith, e.beq_iff k j, get-remove k j d, get-append j (remove k d) ((k, v) ∷ [])))
  ]

  pub length-remove-le : (k : K) (d : Dict K V) → length (remove k d) ≤ length d
  unfolding remove
  length-remove-le k [] = omega arith
  length-remove-le k ((i, v) ∷ d) = ground (arith, length-remove-le k d)

  pub length-remove-lt :
      (k : K) (d : Dict K V) (v : V) → get k d ≡ some v → length (remove k d) < length d
  unfolding get remove
  length-remove-lt k [] v h = cc
  length-remove-lt k ((i, w) ∷ d) v h = ground (arith, length-remove-le k d, length-remove-lt k d v)

  pub length-put : (k : K) (v : V) (d : Dict K V) → length (put k v d) ≤ length d + 1
  unfolding put
  length-put k v [] = omega arith
  length-put k v ((i, w) ∷ d) = ground (arith, length-put k v d)

  pub length-move_to_end-le : (k : K) (d : Dict K V) → length (move_to_end k d) ≤ length d
  unfolding move_to_end
  length-move_to_end-le k d = elim (Option-cases (get k d)) [
    | inl miss ↦ rw (miss, move_to_end) (omega arith)
    | inr (v, hit) ↦
        rw (hit, move_to_end)
          (omega (arith, length-append (remove k d) ((k, v) ∷ []), length-remove-lt k d v hit))
  ]

  -- No key stands twice.
  abbrev pub Distinct : Dict K V → Type κ
  Distinct [] = Unit
  Distinct ((k, v) ∷ d) = (get k d ≡ none) × Distinct d

  pub put-Distinct : (k : K) (v : V) (d : Dict K V) → Distinct d → Distinct (put k v d)
  unfolding put get
  put-Distinct k v [] h = (refl, tt)
  put-Distinct k v ((i, w) ∷ d) h = elim (Bool-cases (i == k)) [
    | inl same ↦ rw same (rw (sym ((e.beq_iff i k).0 same)) (h.0), h.1)
    | inr differ ↦
        rw differ
          (ground (arith, get-put k i v d, e.beq_iff k i, e.beq_iff i k), put-Distinct k v d h.1)
  ]

  pub remove-Distinct : (k : K) (d : Dict K V) → Distinct d → Distinct (remove k d)
  unfolding remove get
  remove-Distinct k [] h = h
  remove-Distinct k ((i, w) ∷ d) h = elim (Bool-cases (i == k)) [
    | inl same ↦ rw same (remove-Distinct k d h.1)
    | inr differ ↦ rw differ (ground (arith, get-remove k i d), remove-Distinct k d h.1)
  ]

  append-Distinct :
      (k : K) (v : V) (d : Dict K V) → get k d ≡ none → Distinct d → Distinct (d ++ (k, v) ∷ [])
  unfolding get
  append-Distinct k v [] n h = (refl, tt)
  append-Distinct k v ((i, w) ∷ d) n h = (
    ground (arith, get-append i d ((k, v) ∷ []), e.beq_iff i k, e.beq_iff k i),
    append-Distinct k v d (ground arith) h.1,
  )

  pub move_to_end-Distinct : (k : K) (d : Dict K V) → Distinct d → Distinct (move_to_end k d)
  unfolding move_to_end
  move_to_end-Distinct k d h = elim (Option-cases (get k d)) [
    | inl miss ↦ rw (miss, move_to_end) h
    | inr (v, hit) ↦
        rw (hit, move_to_end)
          (append-Distinct k v (remove k d) (ground (arith, get-remove k k d, e.beq_iff k k))
            (remove-Distinct k d h))
  ]

  -- for k in ks: d.pop(k, None)
  unfoldable pub remove_all : List K → Dict K V → Dict K V
  unfolding remove
  remove_all [] d = d
  remove_all (k ∷ ks) d = remove_all ks (remove k d)

  pub get-remove_all :
      (ks : List K) (d : Dict K V) (j : K)
      → get j (remove_all ks d) ≡ (if contains j ks then none else get j d)
  unfolding remove_all
  get-remove_all [] d j = refl
  get-remove_all (k ∷ ks) d j = ground (arith, get-remove_all ks (remove k d) j, get-remove k j d)
