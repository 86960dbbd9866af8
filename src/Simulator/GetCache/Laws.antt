-- ===== src/Simulator/GetCache/Laws.antt =====
-- The cache of read variables against a map from references to modified values.
use mathlib.Core.Logic.{if_neg, if_pos}
use mathlib.Core.Path.{subst}
use libcosim.Base.{
  ℕ, zero, suc, ◌<◌, false, List, [], ◌∷◌, ◌++◌, Option, none, some, length, get_elem?, set,
  ℕ_discrete, ◌≡◌, ◌≢◌, refl, sym, ap, ◌∙◌, arith, ite, inl, inr, Option-cases, Bool-cases,
  length-set, get_elem?-set_self, get_elem?-set_ne,
}
use libcosim.Base.Positions.{
  get_elem?-append_one, get_elem?-lt, get_elem?-some, append_one_each, none-ne-some, some_cancel,
}
use libcosim.Base.Int.{ℤ}
use libcosim.Base.Outcome.{ok, err, out_of_range, ok_cancel}
use libcosim.Base.Assoc.{find, assign, contains, find-assign_self, find-assign_ne}
use libcosim.Simulator.GetCache.{
  Modifier, GetCache, empty, expose, get, index_or_insert, put_modifier, set_modifier, modified,
  run_loop, run_modifiers, copy_contents, refresh,
}

-- The lists have one length, and the mapping holds each reference's position, and no other.
pub record IsAligned {T : Type 0} (c : GetCache T) : Type 0 where
  pub originals : length c.original_values ≡ length c.references
  pub modifieds : length c.modified_values ≡ length c.references
  pub all_modifiers : length c.modifiers ≡ length c.references
  pub positions :
      (r i : ℕ) → find ℕ_discrete r c.index_mapping ≡ some i → get_elem? c.references i ≡ some r
  pub mapped :
      (r i : ℕ) → get_elem? c.references i ≡ some r → find ℕ_discrete r c.index_mapping ≡ some i

contains-find :
    (r : ℕ) (m : List (ℕ × ℕ)) → contains ℕ_discrete r m ≡ false → find ℕ_discrete r m ≡ none
unfolding contains find
contains-find r [] h = refl
contains-find r ((j, i) ∷ m) h = ground (arith, contains-find r m)

index_or_insert_found :
    (r i : ℕ) (m : List (ℕ × ℕ)) → find ℕ_discrete r m ≡ some i → index_or_insert r m ≡ (i, m)
unfolding index_or_insert
index_or_insert_found r i m e = rw (e, index_or_insert)

-- Adding a reference at the end keeps the mapping right.
module _ (refs : List ℕ) (m : List (ℕ × ℕ)) (r : ℕ) (new : find ℕ_discrete r m ≡ none) where
  assign-positions :
      ((k i : ℕ) → find ℕ_discrete k m ≡ some i → get_elem? refs i ≡ some k)
      → (k i : ℕ) → find ℕ_discrete k (assign ℕ_discrete r (length refs) m) ≡ some i
      → get_elem? (refs ++ r ∷ []) i ≡ some k
  assign-positions h k i e = elim (ℕ_discrete r k) [
    | yes p ↦
        ground
          (arith, find-assign_self ℕ_discrete r (length refs) m, get_elem?-append_one refs r i, p)
    | no n ↦
        let old = sym (find-assign_ne ℕ_discrete r k (length refs) m n) ∙ e in
        ground (arith, get_elem?-append_one refs r i, h k i old, get_elem?-lt refs i (h k i old))
  ]

  assign-mapped :
      ((k i : ℕ) → get_elem? refs i ≡ some k → find ℕ_discrete k m ≡ some i)
      → (k i : ℕ) → get_elem? (refs ++ r ∷ []) i ≡ some k
      → find ℕ_discrete k (assign ℕ_discrete r (length refs) m) ≡ some i
  assign-mapped h k i e = elim (ℕ_discrete i (length refs)) [
    | yes p ↦
        ground (arith, find-assign_self ℕ_discrete r (length refs) m, get_elem?-append_one refs r i)
    | no n ↦
        let old : get_elem? refs i ≡ some k =
          sym (
            get_elem?-append_one refs r i
            ∙ if_neg (ℕ_discrete i (length refs)) n (some r) (get_elem? refs i))
          ∙ e in
        let found = h k i old in
        find-assign_ne ℕ_discrete r k (length refs) m
          (λ p. none-ne-some (sym new ∙ ap (λ x. find ℕ_discrete x m) p ∙ found))
        ∙ found
  ]

module _ {T : Type 0} where
  get_elem?-run_loop :
      (vs : List T) (ms : List (Option (Modifier T))) (xs : List T) (dt : ℤ) (i : ℕ) {v : T}
      {m : Option (Modifier T)}
      → length xs ≡ length vs
      → get_elem? vs i ≡ some v
      → get_elem? ms i ≡ some m
      → get_elem? (run_loop vs ms xs dt) i ≡ some (modified m v dt)
  unfolding run_loop
  get_elem?-run_loop [] ms xs dt i l e f = cc
  get_elem?-run_loop (v ∷ vs) [] xs dt i l e f = cc
  get_elem?-run_loop (v ∷ vs) (m ∷ ms) [] dt i l e f = absurd (omega arith)
  get_elem?-run_loop (v ∷ vs) (m ∷ ms) (x ∷ xs) dt zero l e f = ground arith
  get_elem?-run_loop (v ∷ vs) (m ∷ ms) (x ∷ xs) dt (suc i) l e f =
      get_elem?-run_loop vs ms xs dt i (omega arith) e f

  length-run_loop :
      (vs : List T) (ms : List (Option (Modifier T))) (xs : List T) (dt : ℤ)
      → length vs ≡ length xs
      → length (run_loop vs ms xs dt) ≡ length xs
  unfolding run_loop
  length-run_loop [] ms xs dt h = refl
  length-run_loop (v ∷ vs) [] xs dt h = refl
  length-run_loop (v ∷ vs) (m ∷ ms) [] dt h = refl
  length-run_loop (v ∷ vs) (m ∷ ms) (x ∷ xs) dt h =
      omega (arith, length-run_loop vs ms xs dt (omega arith))

  copy_contents_all : (src tgt : List T) → length src ≡ length tgt → copy_contents src tgt ≡ src
  unfolding copy_contents
  copy_contents_all [] [] h = refl
  copy_contents_all [] (x ∷ tgt) h = absurd (omega arith)
  copy_contents_all (v ∷ src) [] h = absurd (omega arith)
  copy_contents_all (v ∷ src) (x ∷ tgt) h = ap (◌∷◌ v) (copy_contents_all src tgt (omega arith))

  length-copy_contents : (src tgt : List T) → length (copy_contents src tgt) ≡ length tgt
  unfolding copy_contents
  length-copy_contents [] tgt = refl
  length-copy_contents (v ∷ src) [] = refl
  length-copy_contents (v ∷ src) (x ∷ tgt) = ap suc (length-copy_contents src tgt)

  empty-IsAligned : IsAligned (empty {T = T})
  unfolding find
  empty-IsAligned = record {
    originals = refl;
    modifieds = refl;
    all_modifiers = refl;
    positions = λ r i e. cc;
    mapped = λ r i e. cc;
  }

  pub expose-IsAligned :
      (start : T) (r : ℕ) {c : GetCache T} → IsAligned c → IsAligned (expose start r c)
  unfolding expose
  expose-IsAligned start r {c} a = elim (Bool-cases (contains ℕ_discrete r c.index_mapping)) [
    | inl e ↦ rw e a
    | inr e ↦
        let new = contains-find r c.index_mapping e in
        rw e (record {
          originals = append_one_each c.original_values c.references _ _ a.originals;
          modifieds = append_one_each c.modified_values c.references _ _ a.modifieds;
          all_modifiers = append_one_each c.modifiers c.references _ _ a.all_modifiers;
          positions = assign-positions c.references c.index_mapping r new a.positions;
          mapped = assign-mapped c.references c.index_mapping r new a.mapped;
        })
  ]

  refresh-IsAligned :
      (vs : List T) (dt : ℤ) {c : GetCache T} → IsAligned c → IsAligned (refresh vs dt c)
  unfolding refresh run_modifiers
  refresh-IsAligned vs dt {c} a = record {
    originals = length-copy_contents vs c.original_values ∙ a.originals;
    modifieds =
        length-run_loop (copy_contents vs c.original_values) c.modifiers c.modified_values dt
          (length-copy_contents vs c.original_values ∙ a.originals ∙ sym a.modifieds)
        ∙ a.modifieds;
    all_modifiers = a.all_modifiers;
    positions = a.positions;
    mapped = a.mapped;
  }

  put_modifier_exposed :
      (r i : ℕ) (m : Option (Modifier T)) (c : GetCache T)
      → find ℕ_discrete r c.index_mapping ≡ some i
      → put_modifier r m c ≡ record c { modifiers = set c.modifiers i m }
  unfolding put_modifier
  put_modifier_exposed r i m c e = rw (index_or_insert_found r i c.index_mapping e)

  -- A modifier may be set of an exposed variable.
  put_modifier-IsAligned :
      (r i : ℕ) (m : Option (Modifier T)) {c : GetCache T}
      → find ℕ_discrete r c.index_mapping ≡ some i
      → IsAligned c
      → IsAligned (put_modifier r m c)
  put_modifier-IsAligned r i m {c} e a = rw (put_modifier_exposed r i m c e) (record {
    originals = a.originals;
    modifieds = a.modifieds;
    all_modifiers = length-set c.modifiers i m ∙ a.all_modifiers;
    positions = a.positions;
    mapped = a.mapped;
  })

  -- The write for an exposed variable is within the list.
  pub set_modifier_ok :
      (r i : ℕ) (m : Option (Modifier T)) (c : GetCache T)
      → find ℕ_discrete r c.index_mapping ≡ some i
      → IsAligned c
      → set_modifier r m c ≡ ok (put_modifier r m c)
  unfolding set_modifier
  set_modifier_ok r i m c e a =
      let within = get_elem?-lt c.references i (a.positions r i e) in
      rw (index_or_insert_found r i c.index_mapping e) (ground (arith, within, a.all_modifiers))

  -- What may be done with the cache. A modifier is set of an exposed variable only.
  pub data CacheStep : GetCache T → GetCache T → Type 0 where
    exposes : (start : T) (r : ℕ) (c : GetCache T) → CacheStep c (expose start r c)
    modifies :
        (r i : ℕ) (m : Option (Modifier T)) (c d : GetCache T)
        → find ℕ_discrete r c.index_mapping ≡ some i
        → set_modifier r m c ≡ ok d
        → CacheStep c d
    refreshes : (vs : List T) (dt : ℤ) (c : GetCache T) → CacheStep c (refresh vs dt c)

  pub data CacheReach : GetCache T → Type 0 where
    fresh : CacheReach empty
    next : {c d : GetCache T} → CacheReach c → CacheStep c d → CacheReach d

  CacheStep-IsAligned : {c d : GetCache T} → CacheStep c d → IsAligned c → IsAligned d
  CacheStep-IsAligned (exposes start r c) a = expose-IsAligned start r a
  CacheStep-IsAligned (modifies r i m c d e s) a =
      subst IsAligned (ok_cancel (sym (set_modifier_ok r i m c e a) ∙ s))
        (put_modifier-IsAligned r i m e a)
  CacheStep-IsAligned (refreshes vs dt c) a = refresh-IsAligned vs dt a

  -- In every cache that `expose`, `set_modifier` of exposed variables and `refresh` lead to, the
  -- four lists have one length, and the mapping is exactly that of references to positions.
  pub CacheReach-IsAligned : {c : GetCache T} → CacheReach c → IsAligned c
  CacheReach-IsAligned fresh = empty-IsAligned
  CacheReach-IsAligned (next r s) = CacheStep-IsAligned s (CacheReach-IsAligned r)

  get-refresh_at :
      (c : GetCache T) (vs : List T) (dt : ℤ) (r i : ℕ) {v : T} {m : Option (Modifier T)}
      → IsAligned c
      → length vs ≡ length c.references
      → find ℕ_discrete r c.index_mapping ≡ some i
      → get_elem? vs i ≡ some v
      → get_elem? c.modifiers i ≡ some m
      → get (refresh vs dt c) r ≡ ok (modified m v dt)
  unfolding get refresh run_modifiers
  get-refresh_at c vs dt r i a l e f g =
      rw (e, get)
        (rw (copy_contents_all vs c.original_values (l ∙ sym a.originals))
          (rw (get_elem?-run_loop vs c.modifiers c.modified_values dt i (a.modifieds ∙ sym l) f g)))

  get-refresh_missing :
      (c : GetCache T) (vs : List T) (dt : ℤ) (r : ℕ)
      → find ℕ_discrete r c.index_mapping ≡ none
      → get (refresh vs dt c) r ≡ err out_of_range
  unfolding get refresh run_modifiers
  get-refresh_missing c vs dt r e = rw (e, get)

  module _ (c : GetCache T) (a : IsAligned c) (vs : List T) (l : length vs ≡ length c.references)
      (dt : ℤ) (r i : ℕ) (m : Option (Modifier T))
      (e : find ℕ_discrete r c.index_mapping ≡ some i) where
    changed : GetCache T
    changed = record c { modifiers = set c.modifiers i m }

    changed-IsAligned : IsAligned changed
    unfolding changed
    changed-IsAligned =
        subst IsAligned (put_modifier_exposed r i m c e) (put_modifier-IsAligned r i m e a)

    get-changed_self :
        {v : T} → get_elem? vs i ≡ some v → get (refresh vs dt changed) r ≡ ok (modified m v dt)
    unfolding changed
    get-changed_self f = get-refresh_at changed vs dt r i changed-IsAligned l e f (
        get_elem?-set_self c.modifiers i m (omega (arith, get_elem?-lt vs i f, l, a.all_modifiers)))

    get-changed_at :
        (j k : ℕ)
        → find ℕ_discrete j c.index_mapping ≡ some k
        → i ≢ k
        → get (refresh vs dt changed) j ≡ get (refresh vs dt c) j
    unfolding changed
    get-changed_at j k g ne =
        let within : k < length c.references = get_elem?-lt c.references k (a.positions j k g) in
        let (v, f) = get_elem?-some vs k (omega (arith, l, within)) in
        let (n, h) = get_elem?-some c.modifiers k (omega (arith, a.all_modifiers, within)) in
        get-refresh_at changed vs dt j k changed-IsAligned l g f
          (get_elem?-set_ne c.modifiers m ne ∙ h)
        ∙ sym (get-refresh_at c vs dt j k a l g f h)

    get-changed_ne : (j : ℕ) → j ≢ r → get (refresh vs dt changed) j ≡ get (refresh vs dt c) j
    unfolding changed
    get-changed_ne j ne = elim (Option-cases (find ℕ_discrete j c.index_mapping)) [
      | inl g ↦ get-refresh_missing changed vs dt j g ∙ sym (get-refresh_missing c vs dt j g)
      | inr (k, g) ↦ get-changed_at j k g (λ p. ne (
          some_cancel
            (sym (a.positions j k g) ∙ ap (get_elem? c.references) (sym p) ∙ a.positions r i e)))
    ]

  pub get-put_modifier :
      (c : GetCache T) (vs : List T) (dt : ℤ) (r i : ℕ) (m : Option (Modifier T)) {v : T}
      → IsAligned c
      → length vs ≡ length c.references
      → find ℕ_discrete r c.index_mapping ≡ some i
      → get_elem? vs i ≡ some v
      → (j : ℕ)
      → get (refresh vs dt (put_modifier r m c)) j
        ≡ ite (ℕ_discrete j r) (ok (modified m v dt)) (get (refresh vs dt c) j)
  unfolding changed
  get-put_modifier c vs dt r i m {v} a l e f j =
      rw (put_modifier_exposed r i m c e) (elim (ℕ_discrete j r) [
        | yes p ↦
            ap (get (refresh vs dt (changed c a vs l dt r i m e))) p
            ∙ get-changed_self c a vs l dt r i m e f
            ∙ sym (if_pos (ℕ_discrete j r) p (ok (modified m v dt)) _)
        | no n ↦
            get-changed_ne c a vs l dt r i m e j n
            ∙ sym (if_neg (ℕ_discrete j r) n (ok (modified m v dt)) _)
      ])

  -- After a modifier `m` is set of the exposed variable `r`, which succeeds, the values `vs` next read
  -- from the slave show as `m` makes them for `r` itself, and for every other reference as without
  -- that call.
  pub get-set_modifier :
      (c : GetCache T) (vs : List T) (dt : ℤ) (r i : ℕ) (m : Option (Modifier T)) {v : T}
      → IsAligned c
      → length vs ≡ length c.references
      → find ℕ_discrete r c.index_mapping ≡ some i
      → get_elem? vs i ≡ some v
      → (d : GetCache T) × (set_modifier r m c ≡ ok d)
        × ((j : ℕ)
            → get (refresh vs dt d) j
              ≡ ite (ℕ_discrete j r) (ok (modified m v dt)) (get (refresh vs dt c) j))
  get-set_modifier c vs dt r i m a l e f =
      (put_modifier r m c, set_modifier_ok r i m c e a, get-put_modifier c vs dt r i m a l e f)
