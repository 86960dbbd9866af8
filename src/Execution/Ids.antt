-- ===== src/Execution/Ids.antt =====
-- `entity_index_maps`, and the identifiers that execution.cpp makes of the names of variables.
use libcosim.Base.{ℕ, List}
use libcosim.Base.Outcome.{Outcome, ok, out_of_range, of_option, ◌>>=◌}
use libcosim.Base.Assoc.{find}
use libcosim.Model.{Text}
use libcosim.Algorithm.Defs.{VariableId, FunctionIoId}
use libcosim.SystemStructure.Defs.{Text-discrete, FullVariableName, type_of, SystemStructure}
use libcosim.SystemStructure.Operations.{get_variable_description, get_function_io_description}

pub record EntityIndexMaps : Type 0 where
  pub simulators : List (Text × ℕ)
  pub functions : List (Text × ℕ)

module _ {Real : Type 0} where
  unfoldable pub make_variable_id :
      SystemStructure Real → EntityIndexMaps → FullVariableName → Outcome VariableId
  make_variable_id sys maps v = do
    d ← get_variable_description sys v
    i ← of_option out_of_range (find Text-discrete v.entity_name maps.simulators)
    ok (record { simulator = i; type = d.type; reference = d.reference })

  unfoldable pub make_function_io_id :
      SystemStructure Real → EntityIndexMaps → FullVariableName → Outcome FunctionIoId
  make_function_io_id sys maps v = do
    d ← get_function_io_description sys v
    i ← of_option out_of_range (find Text-discrete v.entity_name maps.functions)
    t ← type_of d.description
    ok (record {
      function = i;
      type = t;
      reference = record {
        group = d.group_index;
        group_instance = v.variable_group_instance;
        io = d.io_index;
        io_instance = v.variable_instance;
      };
    })
