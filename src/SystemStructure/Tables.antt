-- ===== src/SystemStructure/Tables.antt =====
-- The table of a model's variables finds what a search of the description finds.
use libcosim.Base.{List, [], ◌∷◌, Option, none, some, ◌≡◌, refl, sym, ap, ◌∙◌}
use mathlib.Core.Logic.{if_pos, if_neg}
use libcosim.Base.Assoc.{find, emplace, find-emplace_self, find-emplace_ne}
use libcosim.Model.{Text, VariableDescription, ModelDescription}
use libcosim.SystemStructure.Defs.{
  Text-discrete, ModelInfo, model_table, make_variable_lookup_table,
}
use libcosim.SystemStructure.Operations.{find_variable}

abbrev or_else : {A : Type 0} → Option A → Option A → Option A
or_else none y = y
or_else (some x) y = some x

or_else-none : {A : Type 0} (o : Option A) → or_else o none ≡ o
or_else-none none = refl
or_else-none (some x) = refl

module _ {Real : Type 0} where
  find-model_table :
      (name : Text) (vs : List (VariableDescription Real)) (table : ModelInfo Real)
      → find Text-discrete name (model_table vs table)
        ≡ or_else (find Text-discrete name table) (find_variable vs name)
  unfolding model_table find_variable
  find-model_table name [] table = sym (or_else-none (find Text-discrete name table))
  find-model_table name (v ∷ vs) table =
      find-model_table name vs (emplace Text-discrete v.name v table)
      ∙ elim (Text-discrete v.name name) [
        | yes same ↦
            ap (λ o. or_else o (find_variable vs name))
              (ap (λ k. find Text-discrete name (emplace Text-discrete k v table)) same
                ∙ find-emplace_self Text-discrete name v table)
            ∙ first (find Text-discrete name table)
            ∙ sym (
                ap (or_else (find Text-discrete name table))
                  (if_pos (Text-discrete v.name name) same (some v) (find_variable vs name)))
        | no other ↦
            ap (λ o. or_else o (find_variable vs name))
              (find-emplace_ne Text-discrete v.name name v table other)
            ∙ sym (
                ap (or_else (find Text-discrete name table))
                  (if_neg (Text-discrete v.name name) other (some v) (find_variable vs name)))
      ]
    where
      first :
          (o : Option (VariableDescription Real))
          → or_else (elim o [ none ↦ some v | some w ↦ some w ]) (find_variable vs name)
            ≡ or_else o (some v)
      first none = refl
      first (some w) = refl

  -- The entry under a name in the table of a model is the first variable of that name in the
  -- description, and there is none where the description has none.
  pub find-make_variable_lookup_table :
      (m : ModelDescription Real) (name : Text)
      → find Text-discrete name (make_variable_lookup_table m) ≡ find_variable m.variables name
  unfolding make_variable_lookup_table find
  find-make_variable_lookup_table m name = find-model_table name m.variables []
