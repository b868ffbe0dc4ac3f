-- ===== src/Blobs/Tests.antt =====
-- Runs and instances for src/hermes_vylen_gateway/blobs.py.
use hermes_vylen_gateway.Prelude.{
  ◌≡◌, refl, true, false, [], ◌∷◌, Option, none, some, arith, if◌then◌else◌, ◌==◌,
}
use hermes_vylen_gateway.Prelude.Dict
use hermes_vylen_gateway.Prelude.Dict.{Dict}
use hermes_vylen_gateway.Prelude.Text.{Text, codes, text_eq}
use hermes_vylen_gateway.Blobs.{
  BlobEntry, BlobRegistry, Files, Stat, init, lookup, register, is_served,
}
use hermes_vylen_gateway.Blobs.Served.{History, opened, registers, looks_up, lookup-granted}

-- There is one file.
abbrev stat : Text → Option Stat
stat p = if p == codes "/tmp/a.png" then some (record { is_file = true; st_size = 3 }) else none

abbrev pub files : Files
files = record {
  expanduser = λ p. p;
  stat = stat;
  name = λ p. "a.png";
  guess_type = λ n. some "image/png";
}

abbrev pub entry : BlobEntry
entry = record {
  path = codes "/tmp/a.png";
  mime = "image/png";
  filename = "a.png";
  expires_at = 1805;
}

abbrev pub registry : BlobRegistry
registry = record { entries = (codes "tok", entry) ∷ []; ttl = 1800 }

abbrev pub grants : Dict Text BlobEntry
grants = (codes "tok", entry) ∷ []

pub registered : History 1800 9 grants registry
unfolding register lookup Dict.remove_all Dict.put
registered =
    registers files (codes "/tmp/none") (codes "no") 8 9
      (looks_up (codes "tok") 7
        (registers files (codes "/tmp/a.png") (codes "tok") 5 6 (opened 0) (omega arith))
        (omega arith))
      (omega arith)

lookup-granted_example : (lookup registry (codes "tok") 100).1 ≡ some entry
unfolding Dict.get
lookup-granted_example = lookup-granted 1800 (codes "tok") 100 registered (omega arith)

-- A token whose time is over is evicted.
expired : lookup registry (codes "tok") 1805 ≡ (init 1800, none)
unfolding lookup Dict.remove_all Dict.get
expired = refl

-- A file over the limit is not served.
over_limit : is_served (some (record { is_file = true; st_size = 52428801 })) ≡ false
over_limit = refl
