-- ===== src/FileCache/Temporary.antt =====
-- `temporary_file_cache::impl`. A `temporary_file_cache_directory` exists from the call that returns
-- it until it is destroyed, and it alone shares the ownership that was made with it; so a weak pointer
-- to an ownership counts one while that object exists, and none after. The root directory and the
-- making of directories are parameters.
use libcosim.Base.{
  ℕ, suc, Bool, true, false, ◌||◌, List, [], ◌∷◌, ◌++◌, Option, none, some, ite, ℕ_discrete,
  if◌then◌else◌,
}
use libcosim.Base.Outcome.{Outcome, ok, err, logic_error}
use libcosim.Base.Method.{Method, pure, throw, read, lift, ◌>>=◌, ◌>>◌}
use libcosim.Base.Assoc.{find, assign, emplace}
use libcosim.Model.{Text}
use libcosim.SystemStructure.Defs.{Text-discrete}
use libcosim.Uri.Percent.{percent_encode}

-- `temporary_file_cache_directory`, with the number of its ownership. `writable` says which of the
-- two interfaces the caller has got.
pub record Directory : Type 0 where
  pub ownership : ℕ
  pub key : Text
  pub path : Text
  pub writable : Bool

-- `subdirectory_ownership`: an empty weak pointer is none.
pub record Ownership : Type 0 where
  pub rw : Option ℕ
  pub ro : Option ℕ

-- `impl`, with the directory objects that exist, and the number of the next ownership
pub record Cache : Type 0 where
  pub ownerships : List (Text × Ownership)
  pub directories : List Directory
  pub next : ℕ

abbrev pub empty_cache : Cache
empty_cache = record { ownerships = []; directories = []; next = 0 }

unfoldable pub exists_owner : ℕ → List Directory → Bool
exists_owner n [] = false
exists_owner n (d ∷ ds) = ite (ℕ_discrete d.ownership n) true (exists_owner n ds)

-- `use_count() > 0`
abbrev pub in_use : Option ℕ → Cache → Bool
in_use none c = false
in_use (some n) c = exists_owner n c.directories

abbrev pub no_owners : Ownership
no_owners = record { rw = none; ro = none }

unfoldable pub get_ownership : Text → Bool → Method Cache Ownership
get_ownership key create c = elim (find Text-discrete key c.ownerships) [
  | some o ↦ (ok o, c)
  | none ↦
      if create
      then (
        ok no_owners,
        record c { ownerships = emplace Text-discrete key no_owners c.ownerships },
      )
      else (err logic_error, c)
]

-- The reference to the entry is assigned to, and the directory object is made.
unfoldable pub hand_out : Text → Ownership → Bool → Text → Method Cache Directory
hand_out key o writable path c =
    let d : Directory = record {
      ownership = c.next;
      key = key;
      path = path;
      writable = writable;
    } in
    (
      ok d,
      record {
        ownerships = assign Text-discrete key o c.ownerships;
        directories = d ∷ c.directories;
        next = suc c.next;
      },
    )

module _ (root : Text) (create_directories : Text → Outcome (Unit {0})) where
  -- `root_->path() / percent_encode(key)`, with the separator 47
  abbrev pub directory_path : Text → Text
  directory_path key = root ++ 47 ∷ percent_encode [] key

  unfoldable pub get_directory_rw : Text → Method Cache Directory
  unfolding get_ownership hand_out
  get_directory_rw key = do
    owns ← get_ownership key true
    c ← read (λ c. c)
    if in_use owns.rw c || in_use owns.ro c then throw logic_error else pure tt
    lift (create_directories (directory_path key))
    hand_out key (record owns { rw = some c.next }) true (directory_path key)

  unfoldable pub get_directory_ro : Text → Method Cache Directory
  unfolding get_ownership hand_out
  get_directory_ro key = do
    owns ← get_ownership key false
    c ← read (λ c. c)
    if in_use owns.rw c then throw logic_error else pure tt
    hand_out key (record owns { ro = some c.next }) false (directory_path key)

-- A directory object is destroyed.
unfoldable pub release_from : ℕ → List Directory → List Directory
release_from n [] = []
release_from n (d ∷ ds) = ite (ℕ_discrete d.ownership n) ds (d ∷ release_from n ds)

unfoldable pub release : ℕ → Cache → Cache
release n c = record c { directories = release_from n c.directories }
