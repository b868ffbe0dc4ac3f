-- ===== src/Blobs/Served.antt =====
-- What `BlobRegistry` of src/hermes_vylen_gateway/blobs.py serves, against the plain list of what
-- was registered.
use hermes_vylen_gateway.Prelude.{
  ℕ, ◌≤◌, ◌≡◌, refl, sym, ap, ◌∙◌, inl, inr, Bool, false, List, [], ◌∷◌, Option, none, some, arith,
  ◌==◌, leb, if◌then◌else◌, Option-cases, Bool-cases,
}
use hermes_vylen_gateway.Prelude.Dict
use hermes_vylen_gateway.Prelude.Dict.{
  Dict, Distinct, contains, get-remove_all, get-put, put-Distinct, remove-Distinct,
}
use hermes_vylen_gateway.Prelude.Text.{Text, text_eq}
use hermes_vylen_gateway.Blobs.{
  BlobEntry, BlobRegistry, Files, init, stale, evict_expired, entry_for, register, lookup,
}

-- an entry whose time is not over
abbrev pub unexpired : ℕ → Option BlobEntry → Option BlobEntry
unexpired now none = none
unexpired now (some e) = if leb e.expires_at now then none else some e

abbrev is_stale : ℕ → Option BlobEntry → Bool
is_stale now none = false
is_stale now (some e) = leb e.expires_at now

contains-stale :
    (now : ℕ) (k : Text) (d : Dict Text BlobEntry)
    → Distinct d
    → contains k (stale now d) ≡ is_stale now (Dict.get k d)
unfolding Dict.get
contains-stale now k [] h = refl
contains-stale now k ((i, e) ∷ d) h = elim (Bool-cases (i == k)) [
  | inl same ↦ elim (Bool-cases (leb e.expires_at now)) [
    | inl old ↦ rw (same, old) (rw same refl)
    | inr new ↦
        rw (same, new)
          (contains-stale now k d h.1
            ∙ ap (is_stale now) (ap (λ x. Dict.get x d) (sym ((text_eq.beq_iff i k).0 same)) ∙ h.0))
  ]
  | inr differ ↦ elim (Bool-cases (leb e.expires_at now)) [
    | inl old ↦ rw (differ, old) (rw differ (contains-stale now k d h.1))
    | inr new ↦ rw (differ, new) (contains-stale now k d h.1)
  ]
]

remove_all-Distinct :
    (ks : List Text) (d : Dict Text BlobEntry) → Distinct d → Distinct (Dict.remove_all ks d)
unfolding Dict.remove_all
remove_all-Distinct [] d h = h
remove_all-Distinct (k ∷ ks) d h = remove_all-Distinct ks (Dict.remove k d) (remove-Distinct k d h)

get-evict_expired :
    (now : ℕ) (k : Text) (r : BlobRegistry)
    → Distinct r.entries
    → Dict.get k (evict_expired now r).entries ≡ unexpired now (Dict.get k r.entries)
unfolding evict_expired
get-evict_expired now k r h = rw (get-remove_all (stale now r.entries) r.entries k) (
    rw (contains-stale now k r.entries h) (elim (Option-cases (Dict.get k r.entries)) [
      | inl miss ↦ rw miss refl
      | inr (e, hit) ↦ rw hit refl
    ]))

unexpired-later :
    (t now : ℕ) (o : Option BlobEntry) → t ≤ now → unexpired now (unexpired t o) ≡ unexpired now o
unexpired-later t now none h = refl
unexpired-later t now (some e) h = ground arith

-- the grants with what a registration adds
abbrev pub granted : Text → Option BlobEntry → Dict Text BlobEntry → Dict Text BlobEntry
granted token none grants = grants
granted token (some e) grants = (token, e) ∷ grants

module _ (ttl : ℕ) where
  -- Calls of a registry, the last of which evicted at a time, with all entries that were ever
  -- registered, the latest first. A registration may wait for the lock between its two times.
  pub data History : ℕ → Dict Text BlobEntry → BlobRegistry → Type 0 where
    opened : (t : ℕ) → History t [] (init ttl)
    registers :
        {t : ℕ} {grants : Dict Text BlobEntry} {r : BlobRegistry} (fs : Files) (path token : Text)
        (now later : ℕ)
        → History t grants r
        → t ≤ later
        → History later
            (granted token (entry_for fs r path now) grants)
            (register fs r path token now later).0
    looks_up :
        {t : ℕ} {grants : Dict Text BlobEntry} {r : BlobRegistry} (token : Text) (now : ℕ)
        → History t grants r
        → t ≤ now
        → History now grants (lookup r token now).0

  -- The table agrees with the grants, as far as they are valid at a time.
  abbrev Agrees : ℕ → Dict Text BlobEntry → BlobRegistry → Type 0
  Agrees now grants r =
      Distinct r.entries
      × ((k : Text) → unexpired now (Dict.get k r.entries) ≡ unexpired now (Dict.get k grants))

  evict-Agrees :
      (now later : ℕ) (grants : Dict Text BlobEntry) (r : BlobRegistry)
      → now ≤ later
      → Agrees now grants r
      → Agrees later grants (evict_expired later r)
  unfolding evict_expired
  evict-Agrees now later grants r le (d, h) = (
    remove_all-Distinct (stale later r.entries) r.entries d,
    λ k.
        ap (unexpired later) (get-evict_expired later k r d)
        ∙ unexpired-later later later (Dict.get k r.entries) (omega arith)
        ∙ sym (unexpired-later now later (Dict.get k r.entries) le)
        ∙ ap (unexpired later) (h k)
        ∙ unexpired-later now later (Dict.get k grants) le,
  )

  put-Agrees :
      (now : ℕ) (token : Text) (e : BlobEntry) (grants : Dict Text BlobEntry) (r : BlobRegistry)
      → Agrees now grants r
      → Agrees now ((token, e) ∷ grants) (record r { entries = Dict.put token e r.entries })
  unfolding Dict.get
  put-Agrees now token e grants r (d, h) = (
    put-Distinct token e r.entries d,
    λ k.
        rw (get-put token k e r.entries) (elim (Bool-cases (token == k)) [
          | inl same ↦ rw same refl
          | inr differ ↦ rw differ (h k)
        ]),
  )

  later-Agrees :
      (now later : ℕ) (grants : Dict Text BlobEntry) (r : BlobRegistry)
      → now ≤ later
      → Agrees now grants r
      → Agrees later grants r
  later-Agrees now later grants r le (d, h) = (
    d,
    λ k.
        sym (unexpired-later now later (Dict.get k r.entries) le)
        ∙ ap (unexpired later) (h k)
        ∙ unexpired-later now later (Dict.get k grants) le,
  )

  History-Agrees :
      {t : ℕ} {grants : Dict Text BlobEntry} {r : BlobRegistry}
      → History t grants r
      → Agrees t grants r
  unfolding register lookup
  History-Agrees (opened t) = (tt, λ k. refl)
  History-Agrees (registers {t} {grants} {r} fs path token now later past le) =
      let ih = later-Agrees t later grants r le (History-Agrees past) in
      elim (Option-cases (entry_for fs r path now)) [
        | inl refused ↦ rw (refused, register) ih
        | inr (e, made) ↦
            rw (made, register)
              (evict-Agrees later later ((token, e) ∷ grants)
                (record r { entries = Dict.put token e r.entries }) (omega arith)
                (put-Agrees later token e grants r ih))
      ]
  History-Agrees (looks_up {t} {grants} {r} token now past le) =
      evict-Agrees t now grants r le (History-Agrees past)

  -- After any calls, whose clock does not go back, a lookup answers what was registered last under
  -- the token, if it was and its time is not over, and nothing else.
  pub lookup-granted :
      {t : ℕ} {grants : Dict Text BlobEntry} {r : BlobRegistry} (token : Text) (now : ℕ)
      → History t grants r
      → t ≤ now
      → (lookup r token now).1 ≡ unexpired now (Dict.get token grants)
  unfolding lookup
  lookup-granted {t} {grants} {r} token now past le =
      let (d, h) = later-Agrees t now grants r le (History-Agrees past) in
      get-evict_expired now token r d ∙ h token
