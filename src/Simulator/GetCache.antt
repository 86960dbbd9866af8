-- ===== src/Simulator/GetCache.antt =====
-- `get_variable_cache<T>`: the values read from the slave, and the modifiers of them.
pub mod Laws
use libcosim.Base.{
  ℕ, suc, Bool, ltb, List, [], ◌∷◌, ◌++◌, Option, none, some, if◌then◌else◌, length, get_elem?, set,
  ℕ_discrete,
}
use libcosim.Base.Int.{ℤ}
use libcosim.Base.Outcome.{Outcome, ok, err, out_of_range, undefined, of_option}
use libcosim.Base.Assoc.{find, assign, contains}

-- `std::function<T(T, duration)>`; an empty one is `none`.
abbrev pub Modifier : Type 0 → Type 0
Modifier T = T → ℤ → T

pub record GetCache (T : Type 0) : Type 0 where
  pub references : List ℕ
  pub original_values : List T
  pub modified_values : List T
  pub modifiers : List (Option (Modifier T))
  pub index_mapping : List (ℕ × ℕ)

-- `indexMapping[r]`, which maps a reference that is not there to 0.
unfoldable pub index_or_insert : ℕ → List (ℕ × ℕ) → ℕ × List (ℕ × ℕ)
index_or_insert r m = elim (find ℕ_discrete r m) [
  | some i ↦ (i, m)
  | none ↦ (0, assign ℕ_discrete r 0 m)
]

module _ {T : Type 0} where
  abbrev pub empty : GetCache T
  empty = record {
    references = [];
    original_values = [];
    modified_values = [];
    modifiers = [];
    index_mapping = [];
  }

  -- `start` is `T()`.
  unfoldable pub expose : T → ℕ → GetCache T → GetCache T
  expose start r c = if contains ℕ_discrete r c.index_mapping then c else record {
    references = c.references ++ r ∷ [];
    original_values = c.original_values ++ start ∷ [];
    modified_values = c.modified_values ++ start ∷ [];
    modifiers = c.modifiers ++ none ∷ [];
    index_mapping = assign ℕ_discrete r (length c.references) c.index_mapping;
  }

  unfoldable pub get : GetCache T → ℕ → Outcome T
  get c r = elim (find ℕ_discrete r c.index_mapping) [
    | none ↦ err out_of_range
    | some i ↦ of_option undefined (get_elem? c.modified_values i)
  ]

  -- `modifiers[indexMapping[r]] = m`, where the index is within the list
  unfoldable pub put_modifier : ℕ → Option (Modifier T) → GetCache T → GetCache T
  put_modifier r m c =
      let (i, mapping) = index_or_insert r c.index_mapping in
      record c { modifiers = set c.modifiers i m; index_mapping = mapping }

  -- A reference that is not exposed stands for the first one that is; if there is none, the write is
  -- out of bounds.
  unfoldable pub set_modifier : ℕ → Option (Modifier T) → GetCache T → Outcome (GetCache T)
  set_modifier r m c =
      if ltb (index_or_insert r c.index_mapping).0 (length c.modifiers)
      then ok (put_modifier r m c)
      else err undefined

  abbrev pub modified : Option (Modifier T) → T → ℤ → T
  modified none v dt = v
  modified (some f) v dt = f v dt

  -- The loop over the indices of `originalValues`; the lists have one length (`IsAligned`).
  unfoldable pub run_loop : List T → List (Option (Modifier T)) → List T → ℤ → List T
  run_loop [] ms xs dt = xs
  run_loop (v ∷ vs) [] xs dt = xs
  run_loop (v ∷ vs) (m ∷ ms) [] dt = []
  run_loop (v ∷ vs) (m ∷ ms) (x ∷ xs) dt = modified m v dt ∷ run_loop vs ms xs dt

  unfoldable pub run_modifiers : ℤ → GetCache T → GetCache T
  run_modifiers dt c = record c {
    modified_values = run_loop c.original_values c.modifiers c.modified_values dt;
  }

  -- `copy_contents(values, cache.originalValues)`: the rest of a longer target stays.
  unfoldable pub copy_contents : List T → List T → List T
  copy_contents [] tgt = tgt
  copy_contents (v ∷ src) [] = []
  copy_contents (v ∷ src) (x ∷ tgt) = v ∷ copy_contents src tgt

  -- What `get_variables()` does with one cache: copy the slave's values in, then modify them.
  unfoldable pub refresh : List T → ℤ → GetCache T → GetCache T
  refresh vs dt c =
      run_modifiers dt (record c { original_values = copy_contents vs c.original_values })
