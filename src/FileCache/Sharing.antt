-- ===== src/FileCache/Sharing.antt =====
-- The calls of the temporary cache of file_cache.cpp in any order, writers and readers.
use mathlib.Core.Path.{subst}
use mathlib.Core.Logic.{if_pos, if_neg}
use mathlib.Core.List.Memᴰ.{Memᴰ, head, tail}
use libcosim.Base.{
  ℕ, suc, ◌≤◌, Bool, true, false, ◌||◌, List, [], ◌∷◌, Option, none, some, ◌≡◌, ◌≢◌, inl, inr, refl,
  sym, ap, ◌∙◌, if◌then◌else◌, ℕ_discrete, true-ne-false, arith,
}
use libcosim.Base.Positions.{some_cancel}
use libcosim.Base.Outcome.{Outcome, ok, err, logic_error}
use libcosim.Base.Assoc.{find, emplace, find-assign_self}
use libcosim.Base.Method.{Method, >>=-ends, ◌>>=◌, ◌>>◌, pure, throw, lift, read, continue}
use libcosim.Model.{Text}
use libcosim.SystemStructure.Defs.{Text-discrete}
use libcosim.FileCache.Temporary.{
  Directory, Ownership, Cache, empty_cache, exists_owner, in_use, get_ownership, hand_out,
  directory_path, get_directory_rw, get_directory_ro, release_from, release, no_owners,
}
use libcosim.FileCache.Owners.{
  IsOwned, empty-IsOwned, release-IsOwned, Got, get_ownership-Got, hand_out-IsOwned,
  mem-exists_owner,
}

or_false : (a b : Bool) → (a || b) ≡ false → (a ≡ false) × (b ≡ false)
or_false false b e = (refl, e)
or_false true b e = absurd (true-ne-false e)

module _ (root : Text) (create_directories : Text → Outcome (Unit {0})) where
  abbrev pub write : Text → Method Cache Directory
  write = get_directory_rw root create_directories

  abbrev pub view : Text → Method Cache Directory
  view = get_directory_ro root create_directories

  -- The calls after the ownership is found
  after_rw : Text → Ownership → Method Cache Directory
  after_rw key o = do
    c ← read (λ c. c)
    if in_use o.rw c || in_use o.ro c then throw logic_error else pure tt
    lift (create_directories (directory_path root create_directories key))
    hand_out key (record o { rw = some c.next }) true (directory_path root create_directories key)

  after_ro : Text → Ownership → Method Cache Directory
  after_ro key o = do
    c ← read (λ c. c)
    if in_use o.rw c then throw logic_error else pure tt
    hand_out key (record o { ro = some c.next }) false (directory_path root create_directories key)

  get_directory_rw-IsOwned : (key : Text) (c : Cache) → IsOwned c → IsOwned (write key c).1
  unfolding get_directory_rw after_rw
  get_directory_rw-IsOwned key c w =
      >>=-ends (get_ownership key true) (after_rw key) c (Got key) (λ o t. IsOwned t)
        (get_ownership-Got key true c w) rest (λ x t h. h)
    where
      rest : (o : Ownership) (t : Cache) → Got key (ok o) t → IsOwned (after_rw key o t).1
      rest o t g = go (in_use o.rw t || in_use o.ro t) refl
        where
          path : Text
          path = directory_path root create_directories key

          finish : Method Cache Directory
          finish =
              lift (create_directories path)
              >> hand_out key (record o { rw = some t.next }) true path

          made_one :
              (x : Outcome (Unit {0}))
              → in_use o.rw t ≡ false
              → IsOwned
                  (continue x t (λ u. hand_out key (record o { rw = some t.next }) true path)).1
          made_one (ok u) free =
              hand_out-IsOwned key o (record o { rw = some t.next }) true path t g.0 g.1 free
                (inl refl)
          made_one (err x) free = g.0

          go :
              (b : Bool)
              → (in_use o.rw t || in_use o.ro t) ≡ b
              → IsOwned (((if b then throw logic_error else pure tt) >> finish) t).1
          go true e = g.0
          go false e =
              made_one (create_directories path) (or_false (in_use o.rw t) (in_use o.ro t) e).0

  get_directory_ro-IsOwned : (key : Text) (c : Cache) → IsOwned c → IsOwned (view key c).1
  unfolding get_directory_ro after_ro
  get_directory_ro-IsOwned key c w =
      >>=-ends (get_ownership key false) (after_ro key) c (Got key) (λ o t. IsOwned t)
        (get_ownership-Got key false c w) rest (λ x t h. h)
    where
      rest : (o : Ownership) (t : Cache) → Got key (ok o) t → IsOwned (after_ro key o t).1
      rest o t g = go (in_use o.rw t) refl
        where
          path : Text
          path = directory_path root create_directories key

          go :
              (b : Bool)
              → in_use o.rw t ≡ b
              → IsOwned
                  (((if b then throw logic_error else pure tt)
                      >> hand_out key (record o { ro = some t.next }) false path)
                    t).1
          go true e = g.0
          go false e =
              hand_out-IsOwned key o (record o { ro = some t.next }) false path t g.0 g.1 e
                (inr (refl, refl))

  -- A cache after any calls, those that throw included
  pub data CacheReach : Cache → Type 0 where
    made : CacheReach empty_cache
    writes : {c : Cache} (key : Text) → CacheReach c → CacheReach (write key c).1
    reads : {c : Cache} (key : Text) → CacheReach c → CacheReach (view key c).1
    releases : {c : Cache} (n : ℕ) → CacheReach c → CacheReach (release n c)

  CacheReach-IsOwned : {c : Cache} → CacheReach c → IsOwned c
  CacheReach-IsOwned made = empty-IsOwned
  CacheReach-IsOwned (writes {c} key r) = get_directory_rw-IsOwned key c (CacheReach-IsOwned r)
  CacheReach-IsOwned (reads {c} key r) = get_directory_ro-IsOwned key c (CacheReach-IsOwned r)
  CacheReach-IsOwned (releases {c} n r) = release-IsOwned n c (CacheReach-IsOwned r)

  get_ownership_found :
      (key : Text) (create : Bool) (c : Cache) {o : Ownership}
      → find Text-discrete key c.ownerships ≡ some o
      → ◌≡◌ {A = Outcome Ownership × Cache} (get_ownership key create c) (ok o, c)
  unfolding get_ownership
  get_ownership_found key create c f =
      ap
        (λ (x : Option Ownership). elim x as (λ x. Outcome Ownership × Cache) [
          | some o ↦ (ok o, c)
          | none ↦
              if create
              then (
                ok no_owners,
                record c { ownerships = emplace Text-discrete key no_owners c.ownerships },
              )
              else (err logic_error, c)
        ])
        f

  abbrev pub path_of : Text → Text
  path_of = directory_path root create_directories

  abbrev Result : Type 0
  Result = Outcome Directory × Cache

  -- The two calls where the entry is there, by the tests
  write_found :
      (key : Text) (c : Cache) {o : Ownership} {b : Bool}
      → find Text-discrete key c.ownerships ≡ some o
      → (in_use o.rw c || in_use o.ro c) ≡ b
      → ◌≡◌ {A = Result} (write key c) (
          ((if b then throw logic_error else pure tt)
              >> (lift (create_directories (path_of key))
                  >> hand_out key (record o { rw = some c.next }) true (path_of key)))
            c)
  unfolding get_directory_rw after_rw
  write_found key c {o} f e =
      ap (λ (x : Outcome Ownership × Cache). continue x.0 x.1 (after_rw key))
        (get_ownership_found key true c f)
      ∙ ap
          (λ (b : Bool).
            ((if b then throw logic_error else pure tt)
                >> (lift (create_directories (path_of key))
                    >> hand_out key (record o { rw = some c.next }) true (path_of key)))
              c)
          e

  view_found :
      (key : Text) (c : Cache) {o : Ownership} {b : Bool}
      → find Text-discrete key c.ownerships ≡ some o
      → in_use o.rw c ≡ b
      → ◌≡◌ {A = Result} (view key c) (
          ((if b then throw logic_error else pure tt)
              >> hand_out key (record o { ro = some c.next }) false (path_of key))
            c)
  unfolding get_directory_ro after_ro
  view_found key c {o} f e =
      ap (λ (x : Outcome Ownership × Cache). continue x.0 x.1 (after_ro key))
        (get_ownership_found key false c f)
      ∙ ap
          (λ (b : Bool).
            ((if b then throw logic_error else pure tt)
                >> hand_out key (record o { ro = some c.next }) false (path_of key))
              c)
          e

  -- However the calls are ordered, two directories for writing of one key that exist are the same one;
  -- and as long as it exists, both calls for the key fail with logic_error and change nothing.
  pub get_directory-writable :
      {c : Cache} (d e : Directory)
      → CacheReach c
      → Memᴰ d c.directories
      → d.writable ≡ true
      → Memᴰ e c.directories
      → e.writable ≡ true
      → e.key ≡ d.key
      → (e ≡ d)
        × ◌≡◌ {A = Outcome Directory × Cache} (write d.key c) (err logic_error, c)
        × ◌≡◌ {A = Outcome Directory × Cache} (view d.key c) (err logic_error, c)
  get_directory-writable {c} d e r h b k b' same =
      let w = CacheReach-IsOwned r in
      let (o, f, u) = w.writers d h b in
      let (p, g, i) = w.writers e k b' in
      let taken : in_use o.rw c ≡ true =
        ap (λ (x : Option ℕ). in_use x c) u ∙ mem-exists_owner c.directories h in
      (
        w.apart e d k h (
            some_cancel (
              sym i
              ∙ ap (λ (q : Ownership). q.rw)
                  (some_cancel
                    (sym g ∙ ap (λ (l : Text). find Text-discrete l c.ownerships) same ∙ f))
              ∙ u)),
        write_found d.key c f (ap (λ (b : Bool). b || in_use o.ro c) taken),
        view_found d.key c f taken,
      )

  exists_owner_new :
      (n : ℕ) (ds : List Directory)
      → ((d : Directory) → Memᴰ d ds → d.ownership ≢ n)
      → exists_owner n ds ≡ false
  unfolding exists_owner
  exists_owner_new n [] h = refl
  exists_owner_new n (d ∷ ds) h =
      if_neg (ℕ_discrete d.ownership n) (h d (head refl)) true (exists_owner n ds)
      ∙ exists_owner_new n ds (λ e k. h e (tail k))

  unused-cons :
      (x : Option ℕ) (c : Cache) (d : Directory) (l : List (Text × Ownership)) (n : ℕ)
      → in_use x c ≡ false
      → ((m : ℕ) → x ≡ some m → d.ownership ≢ m)
      → in_use x (record { ownerships = l; directories = d ∷ c.directories; next = n }) ≡ false
  unfolding exists_owner
  unused-cons none c d l n free other = refl
  unused-cons (some m) c d l n free other =
      if_neg (ℕ_discrete d.ownership m) (other m refl) true (exists_owner m c.directories) ∙ free

  view_ok :
      (key : Text) (c : Cache) {o : Ownership}
      → find Text-discrete key c.ownerships ≡ some o
      → in_use o.rw c ≡ false
      → ◌≡◌ {A = Result}
          (view key c)
          (hand_out key (record o { ro = some c.next }) false (path_of key) c)
  view_ok key c f free = view_found key c f free

  -- Let a key have an entry and no writer. If two directories for reading are handed out, and the
  -- second is destroyed, then one for writing is handed out although the first still exists.
  pub get_directory_rw-release :
      {c : Cache} (key : Text) {o : Ownership}
      → CacheReach c
      → find Text-discrete key c.ownerships ≡ some o
      → in_use o.rw c ≡ false
      → create_directories (path_of key) ≡ ok tt
      → let later = release (suc c.next) (view key (view key c).1).1 in
        let first : Directory = record {
          ownership = c.next;
          key = key;
          path = path_of key;
          writable = false;
        } in
        let writer : Directory = record {
          ownership = suc (suc c.next);
          key = key;
          path = path_of key;
          writable = true;
        } in
        Memᴰ first later.directories × ((write key later).0 ≡ ok writer)
  unfolding hand_out release release_from
  get_directory_rw-release {c} key {o} r f free created =
      subst (λ (t : Cache). Memᴰ first t.directories × ((write key t).0 ≡ ok writer)) (sym later_is)
        (head refl, ap (λ (x : Result). x.0) wrote)
    where
      w : IsOwned c
      w = CacheReach-IsOwned r

      dir : ℕ → Bool → Directory
      dir n b = record { ownership = n; key = key; path = path_of key; writable = b }

      first : Directory
      first = dir c.next false

      writer : Directory
      writer = dir (suc (suc c.next)) true

      -- The caches after the first call, after the second, and after the second object is gone
      entry : ℕ → Ownership
      entry n = record o { ro = some n }

      c1 : Cache
      c1 = (hand_out key (entry c.next) false (path_of key) c).1

      c2 : Cache
      c2 = (hand_out key (entry (suc c.next)) false (path_of key) c1).1

      c3 : Cache
      c3 = record c2 { directories = first ∷ c.directories }

      older : (m : ℕ) → o.rw ≡ some m → (n : ℕ) → c.next ≤ n → n ≢ m
      older m e n l same = let p = w.past key o m f e in omega (arith, p, l, same)

      free1 : in_use o.rw c1 ≡ false
      free1 = unused-cons o.rw c first _ _ free (λ m e. older m e c.next (omega arith))

      found1 : find Text-discrete key c1.ownerships ≡ some (entry c.next)
      found1 = find-assign_self Text-discrete key (entry c.next) c.ownerships

      found3 : find Text-discrete key c3.ownerships ≡ some (entry (suc c.next))
      found3 = find-assign_self Text-discrete key (entry (suc c.next)) c1.ownerships

      later_is : release (suc c.next) (view key (view key c).1).1 ≡ c3
      later_is =
          ap (λ (x : Result). release (suc c.next) (view key x.1).1) (view_ok key c f free)
          ∙ ap (λ (x : Result). release (suc c.next) x.1) (view_ok key c1 found1 free1)
          ∙ ap (λ (l : List Directory). record c2 { directories = l })
              (if_pos (ℕ_discrete (suc c.next) (suc c.next)) refl (first ∷ c.directories)
                (dir (suc c.next) false ∷ release_from (suc c.next) (first ∷ c.directories)))

      free_ro : exists_owner (suc c.next) (first ∷ c.directories) ≡ false
      free_ro = exists_owner_new (suc c.next) (first ∷ c.directories) (λ d h. elim h [
        | head e ↦ λ same. let q = ap (λ (x : Directory). x.ownership) e in omega (arith, q, same)
        | tail t ↦ λ same. let q = w.numbered d t in omega (arith, q, same)
      ])

      free3 : (in_use o.rw c3 || exists_owner (suc c.next) (first ∷ c.directories)) ≡ false
      free3 =
          ap (λ (b : Bool). b || exists_owner (suc c.next) (first ∷ c.directories))
            (unused-cons o.rw c first c2.ownerships c2.next free
              (λ m e. older m e c.next (omega arith)))
          ∙ free_ro

      wrote :
          ◌≡◌ {A = Result}
            (write key c3)
            (hand_out key (record (entry (suc c.next)) { rw = some c3.next }) true (path_of key) c3)
      wrote =
          write_found key c3 found3 free3
          ∙ ap
              (λ (u : Outcome (Unit {0})). continue u c3 (λ v.
                hand_out key (record (entry (suc c.next)) { rw = some c3.next }) true
                  (path_of key)))
              created
