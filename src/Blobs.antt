-- ===== src/Blobs.antt =====
-- src/hermes_vylen_gateway/blobs.py: the files that the plugin is willing to serve, by random
-- tokens that expire. pathlib, mimetypes, the clock and the random tokens are arguments.
pub mod Served
pub mod Tests
use hermes_vylen_gateway.Prelude.{
  ℕ, ◌+◌, String, Bool, false, not, ◌||◌, List, [], ◌∷◌, Option, none, some, ltb, leb,
  if◌then◌else◌,
}
use hermes_vylen_gateway.Prelude.Dict
use hermes_vylen_gateway.Prelude.Dict.{Dict}
use hermes_vylen_gateway.Prelude.Text.{Text, text_eq}

abbrev default_max_bytes : ℕ
default_max_bytes = 52428800

pub record BlobEntry : Type 0 where
  pub path : Text
  pub mime : String
  pub filename : String
  pub expires_at : ℕ

pub record BlobRegistry : Type 0 where
  pub entries : Dict Text BlobEntry
  pub ttl : ℕ

abbrev pub init : ℕ → BlobRegistry
init ttl_seconds = record { entries = []; ttl = ttl_seconds }

-- what p.stat() and p.is_file() say
pub record Stat : Type 0 where
  pub is_file : Bool
  pub st_size : ℕ

-- Path.expanduser, p.stat (`none` for an OSError), p.name and mimetypes.guess_type
pub record Files : Type 0 where
  pub expanduser : Text → Text
  pub stat : Text → Option Stat
  pub name : Text → String
  pub guess_type : String → Option String

-- the tokens that are not valid any more
abbrev pub stale : ℕ → Dict Text BlobEntry → List Text
stale now [] = []
stale now ((token, e) ∷ es) =
    let rest = stale now es in if leb e.expires_at now then token ∷ rest else rest

unfoldable pub evict_expired : ℕ → BlobRegistry → BlobRegistry
evict_expired now r = record r { entries = Dict.remove_all (stale now r.entries) r.entries }

abbrev pub mime_of : Option String → String
mime_of none = "application/octet-stream"
mime_of (some mime) = mime

abbrev pub is_served : Option Stat → Bool
is_served none = false
is_served (some s) = not (not s.is_file || ltb default_max_bytes s.st_size)

module _ (fs : Files) where
  -- the entry that `register` makes of a path
  unfoldable pub entry_for : BlobRegistry → Text → ℕ → Option BlobEntry
  entry_for r path now =
      let p = fs.expanduser path in
      if is_served (fs.stat p)
      then some (record {
        path = p;
        mime = mime_of (fs.guess_type (fs.name p));
        filename = fs.name p;
        expires_at = now + r.ttl;
      })
      else none

  abbrev answer_of : Text → BlobEntry → Text × String × String
  answer_of token e = (token, e.mime, e.filename)

  -- register(path) at `now`, which gets to the lock and evicts `later`
  unfoldable pub register :
      BlobRegistry → Text → Text → ℕ → ℕ → BlobRegistry × Option (Text × String × String)
  unfolding entry_for evict_expired
  register r path token now later = elim (entry_for r path now) [
    | none ↦ (r, none)
    | some e ↦ (
      evict_expired later (record r { entries = Dict.put token e r.entries }),
      some (answer_of token e),
    )
  ]

unfoldable pub lookup : BlobRegistry → Text → ℕ → BlobRegistry × Option BlobEntry
unfolding evict_expired
lookup r token now = let kept = evict_expired now r in (kept, Dict.get token kept.entries)
