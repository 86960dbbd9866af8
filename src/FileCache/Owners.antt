-- ===== src/FileCache/Owners.antt =====
-- Who holds a directory of the temporary cache of file_cache.cpp, in every order of calls.
use mathlib.Core.Logic.{if_pos}
use mathlib.Core.List.Memᴰ.{Memᴰ, head, tail}
use libcosim.Base.{
  ℕ, suc, ◌<◌, Bool, true, false, List, [], ◌∷◌, Option, none, some, ◌≡◌, ◌⊎◌, inl, inr, refl, sym,
  ap, ◌∙◌, ite, if◌then◌else◌, ℕ_discrete, true-ne-false, arith,
}
use libcosim.Base.Positions.{some_cancel, none-ne-some}
use libcosim.Base.Outcome.{Outcome, ok, err, logic_error}
use libcosim.Base.Assoc.{
  find, assign, emplace, find-assign_self, find-assign_ne, find-emplace_self, find-emplace_ne,
  find-emplace_found,
}
use libcosim.Model.{Text}
use libcosim.SystemStructure.Defs.{Text-discrete}
use libcosim.FileCache.Temporary.{
  Directory, Ownership, Cache, empty_cache, exists_owner, in_use, no_owners, get_ownership,
  hand_out, release_from, release,
}

pub mem-exists_owner :
    {d : Directory} (ds : List Directory) → Memᴰ d ds → exists_owner d.ownership ds ≡ true
unfolding exists_owner
mem-exists_owner [] h = elim h [ ]
mem-exists_owner (e ∷ ds) (head p) =
    if_pos (ℕ_discrete e.ownership _) (ap (λ (x : Directory). x.ownership) (sym p)) true
      (exists_owner _ ds)
mem-exists_owner {d} (e ∷ ds) (tail t) = let r = mem-exists_owner ds t in ground (arith, r)

of_mem-release_from :
    (n : ℕ) (ds : List Directory) {d : Directory} → Memᴰ d (release_from n ds) → Memᴰ d ds
unfolding release_from
of_mem-release_from n [] h = elim h [ ]
of_mem-release_from n (e ∷ ds) {d} h = go (ℕ_discrete e.ownership n) (of_mem-release_from n ds) h
  where
    go :
        {P : Type 0} (c : Dec P)
        → (Memᴰ d (release_from n ds) → Memᴰ d ds)
        → Memᴰ d (ite c ds (e ∷ release_from n ds))
        → Memᴰ d (e ∷ ds)
    go (yes p) again h = tail h
    go (no p) again (head q) = head q
    go (no p) again (tail t) = tail (again t)

-- The entries name the writers that exist, and no ownership has two directories.
pub record IsOwned (c : Cache) : Type 0 where
  pub numbered : (d : Directory) → Memᴰ d c.directories → d.ownership < c.next
  pub apart :
      (d e : Directory)
      → Memᴰ d c.directories
      → Memᴰ e c.directories
      → d.ownership ≡ e.ownership
      → d ≡ e
  pub writers :
      (d : Directory)
      → Memᴰ d c.directories
      → d.writable ≡ true
      → (o : Ownership) × (find Text-discrete d.key c.ownerships ≡ some o)
        × (o.rw ≡ some d.ownership)
  pub past :
      (k : Text) (o : Ownership) (n : ℕ)
      → find Text-discrete k c.ownerships ≡ some o
      → o.rw ≡ some n
      → n < c.next

pub empty-IsOwned : IsOwned empty_cache
unfolding find
empty-IsOwned = record {
  numbered = λ d h. elim h [ ];
  apart = λ d e h. elim h [ ];
  writers = λ d h. elim h [ ];
  past = λ k o n h. absurd (none-ne-some h);
}

pub release-IsOwned : (n : ℕ) (c : Cache) → IsOwned c → IsOwned (release n c)
unfolding release
release-IsOwned n c w = record {
  numbered = λ d h. w.numbered d (of_mem-release_from n c.directories h);
  apart = λ d e h k.
      w.apart d e (of_mem-release_from n c.directories h) (of_mem-release_from n c.directories k);
  writers = λ d h. w.writers d (of_mem-release_from n c.directories h);
  past = w.past;
}

-- An entry that is found: the ownership, and the entry itself
abbrev pub Got : Text → Outcome Ownership → Cache → Type 0
Got key (ok o) t = IsOwned t × (find Text-discrete key t.ownerships ≡ some o)
Got key (err x) t = IsOwned t

pub get_ownership-Got :
    (key : Text) (create : Bool) (c : Cache)
    → IsOwned c
    → let r = get_ownership key create c in Got key r.0 r.1
unfolding get_ownership
get_ownership-Got key create c w = go (find Text-discrete key c.ownerships) refl create
  where
    emplaced : Cache
    emplaced = record c { ownerships = emplace Text-discrete key no_owners c.ownerships }

    there :
        find Text-discrete key c.ownerships ≡ none
        → find Text-discrete key emplaced.ownerships ≡ some no_owners
    there e =
        find-emplace_self Text-discrete key no_owners c.ownerships
        ∙ ap
            (λ (o : Option Ownership). elim o as (λ x. Option Ownership) [
              | none ↦ some no_owners
              | some w ↦ some w
            ])
            e

    owned : find Text-discrete key c.ownerships ≡ none → IsOwned emplaced
    owned e = record {
      numbered = w.numbered;
      apart = w.apart;
      writers = λ d h b.
          let (o, f, g) = w.writers d h b in
          (o, find-emplace_found Text-discrete key d.key no_owners c.ownerships f, g);
      past = λ k o n f g. elim (Text-discrete key k) [
        | yes same ↦ absurd (
            none-ne-some (
              ap (λ (q : Ownership). q.rw)
                (some_cancel (
                  sym (there e)
                  ∙ ap (λ (l : Text). find Text-discrete l emplaced.ownerships) same
                  ∙ f))
              ∙ g))
        | no other ↦
            w.past k o n
              (sym (find-emplace_ne Text-discrete key k no_owners c.ownerships other) ∙ f) g
      ];
    }

    go :
        (o : Option Ownership)
        → find Text-discrete key c.ownerships ≡ o
        → (create : Bool)
        → let r = (elim o as (λ x. Outcome Ownership × Cache) [
          | some o ↦ (ok o, c)
          | none ↦ if create then (ok no_owners, emplaced) else (err logic_error, c)
        ]) in
          Got key r.0 r.1
    go (some o) e create = (w, e)
    go none e true = (owned e, there e)
    go none e false = w

pub hand_out-IsOwned :
    (key : Text) (o p : Ownership) (writable : Bool) (path : Text) (c : Cache)
    → IsOwned c
    → find Text-discrete key c.ownerships ≡ some o
    → in_use o.rw c ≡ false
    → (p.rw ≡ some c.next) ⊎ ((p.rw ≡ o.rw) × (writable ≡ false))
    → IsOwned (hand_out key p writable path c).1
unfolding hand_out
hand_out-IsOwned key o p writable path c w f free rw = record {
  numbered = λ d h. elim h [
    | head e ↦ let q = ap (λ (x : Directory). x.ownership) e in omega (arith, q)
    | tail t ↦ let q = w.numbered d t in omega (arith, q)
  ];
  apart = λ d e h k same. elim h [
    | head a ↦ elim k [ head b ↦ a ∙ sym b | tail u ↦ absurd (newer d e a u same) ]
    | tail t ↦ elim k [ head b ↦ absurd (newer e d b t (sym same)) | tail u ↦ w.apart d e t u same ]
  ];
  writers = λ d h b. elim h [
    | head e ↦ elim rw [
      | inl q ↦ (
        p,
        ap (λ (x : Directory). find Text-discrete x.key (assign Text-discrete key p c.ownerships)) e
            ∙ find-assign_self Text-discrete key p c.ownerships,
        q ∙ ap (λ (x : Directory). some x.ownership) (sym e),
      )
      | inr q ↦ absurd (true-ne-false (sym b ∙ ap (λ (x : Directory). x.writable) e ∙ q.1))
    ]
    | tail t ↦ old d t b
  ];
  past = λ k q n g i. elim (Text-discrete key k) [
    | yes same ↦
        let e : p ≡ q = some_cancel (
          sym (find-assign_self Text-discrete key p c.ownerships)
          ∙ ap (λ (l : Text). find Text-discrete l (assign Text-discrete key p c.ownerships)) same
          ∙ g) in
        below n (ap (λ (x : Ownership). x.rw) e ∙ i)
    | no other ↦
        let r =
          w.past k q n (sym (find-assign_ne Text-discrete key k p c.ownerships other) ∙ g) i in
        omega (arith, r)
  ];
}
  where
    new : Directory
    new = record { ownership = c.next; key = key; path = path; writable = writable }

    newer : (d e : Directory) → d ≡ new → Memᴰ e c.directories → d.ownership ≡ e.ownership → ⊥
    newer d e a h same =
        let q = ap (λ (x : Directory). x.ownership) a in
        let r = w.numbered e h in omega (arith, q, r, same)

    below : (n : ℕ) → p.rw ≡ some n → n < suc c.next
    below n i = elim rw [
      | inl q ↦ let e = some_cancel (sym q ∙ i) in omega (arith, e)
      | inr q ↦ let r = w.past key o n f (sym q.0 ∙ i) in omega (arith, r)
    ]

    old :
        (d : Directory)
        → Memᴰ d c.directories
        → d.writable ≡ true
        → (q : Ownership) × (find Text-discrete d.key (assign Text-discrete key p c.ownerships)
            ≡ some q)
          × (q.rw ≡ some d.ownership)
    old d t b =
        let (q, g, i) = w.writers d t b in
        elim (Text-discrete key d.key) [
          | yes same ↦
              let e : o ≡ q =
                some_cancel
                  (sym f ∙ ap (λ (l : Text). find Text-discrete l c.ownerships) same ∙ g) in
              absurd (
                true-ne-false (
                  sym (mem-exists_owner c.directories t)
                  ∙ ap (λ (x : Option ℕ). in_use x c) (sym i ∙ ap (λ (x : Ownership). x.rw) (sym e))
                  ∙ free))
          | no other ↦ (q, find-assign_ne Text-discrete key d.key p c.ownerships other ∙ g, i)
        ]
