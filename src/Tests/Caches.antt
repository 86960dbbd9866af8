-- ===== src/Tests/Caches.antt =====
-- A cache with one key: a writer, then two readers; and a lock that two threads share.
use libcosim.SystemStructure.Defs.{Text-discrete}
use libcosim.Base.Assoc.{assign, emplace, find}
use mathlib.Core.List.Memᴰ.{Memᴰ, head}
use libcosim.Base.{ℕ_discrete, suc, true, false, [], ◌∷◌, ◌≡◌, refl, arith}
use libcosim.Base.Int.{add_ℤ, pos}
use libcosim.Base.Outcome.{Outcome, ok, err, logic_error}
use libcosim.Model.{Text}
use libcosim.FileCache.Temporary.{
  exists_owner, release_from, Directory, Cache, empty_cache, get_directory_rw, release,
}
use libcosim.FileCache.Sharing.{
  made, writes, releases, write, view, path_of, get_directory-writable, get_directory_rw-release,
}
use libcosim.FileCache.Lock.{
  FileMutex, unlocked, lock_shared, unlock_shared, LockReach, shares, unlocks_shared, IsConsistent,
  LockReach-IsConsistent, sharable,
}
use libcosim.FileCache.Lock

abbrev key : Text
key = b'k' ∷ []

abbrev root : Text
root = b'/' ∷ b't' ∷ []

abbrev created : Text → Outcome (Unit {0})
created path = ok tt

abbrev held : Cache
held = (write root created key empty_cache).1

abbrev writer : Directory
writer = record { ownership = 0; key = key; path = path_of root created key; writable = true }

get_directory-writable_example :
    (writer ≡ writer)
    × ◌≡◌ {A = Outcome Directory × Cache} (write root created key held) (err logic_error, held)
    × ◌≡◌ {A = Outcome Directory × Cache} (view root created key held) (err logic_error, held)
unfolding get_directory_rw find
get_directory-writable_example =
    get_directory-writable root created writer writer (writes key made) (head refl) refl (head refl)
      refl refl

abbrev free : Cache
free = release 0 held

abbrev later : Cache
later = release (suc free.next) (view root created key (view root created key free).1).1

get_directory_rw-release_example :
    Memᴰ
      (record { ownership = 1; key = key; path = path_of root created key; writable = false })
      later.directories
    × ((write root created key later).0
        ≡ ok
            (record { ownership = 3; key = key; path = path_of root created key; writable = true }))
unfolding find release get_directory_rw assign emplace Text-discrete ℕ_discrete exists_owner
    release_from
get_directory_rw-release_example =
    get_directory_rw-release root created key (releases 0 (writes key made)) refl refl refl

abbrev one_sharer : FileMutex
one_sharer = record {
  owned = false;
  sharers = 1;
  file = record { share_count = pos 1; held = sharable };
}

abbrev two_sharers : FileMutex
two_sharers = record {
  owned = false;
  sharers = 2;
  file = record { share_count = pos 2; held = sharable };
}

two-LockReach : LockReach two_sharers
unfolding lock_shared add_ℤ
two-LockReach = shares {m = one_sharer} (shares Lock.made refl) refl

LockReach-IsConsistent_example : IsConsistent (unlock_shared two_sharers)
LockReach-IsConsistent_example = LockReach-IsConsistent (unlocks_shared two-LockReach (omega arith))
