-- ===== src/Lib.antt =====
-- libcosim, a co-simulation library: its URI references, its slave simulators, its functions, its
-- fixed-step algorithm with the pool of threads below it, the execution that drives them with its
-- observers and manipulators, the system structure that describes what is simulated, and the caches
-- and resolvers by which models are found.
--
-- The parts and how they interact. A model is named by a URI reference, which is parsed, composed
-- from components, resolved against a base and percent-encoded (src/cosim/uri.cpp). A running
-- model is a slave. `slave_simulator` (src/cosim/slave_simulator.cpp) stands in front of it: values
-- set are kept in a cache until the next step, when modifiers change them and they are sent; after
-- the step the exposed variables are read into another cache, through modifiers of their own.
-- Functions (src/cosim/function) are calculated between steps; they are instances of function types,
-- whose descriptions have placeholders for parameters. The master algorithm `fixed_step_algorithm`
-- (src/cosim/algorithm/fixed_step_algorithm.cpp) steps the simulators, each at a multiple of the
-- base step, as tasks of a thread pool (src/cosim/utility/thread_pool.hpp), and carries variables
-- along connections between simulators and functions. `execution` (src/cosim/execution.cpp) holds
-- the simulators and the functions, checks the connections before it hands them to the algorithm,
-- takes steps until an end time, and tells observers and manipulators of them. One observer
-- (src/cosim/observer/time_series_observer.cpp) keeps the last samples of variables, another
-- (src/cosim/observer/last_value_observer.cpp) their last values. Two manipulators
-- (src/cosim/manipulator) set modifiers of variables, one at the times of a scenario's events and one
-- when a user asks for it. A
-- `system_structure` (src/cosim/system_structure.cpp) is a description of entities, connections and
-- values, checked before an execution is made of it by `inject_system_structure`. Models are looked
-- up by their URIs (src/cosim/orchestration.cpp), in a cache of directories (src/cosim/file_cache.cpp)
-- that are locked by src/cosim/utility/concurrency.cpp.
--
-- The files, and the code they model:
--   Base          lists, integers, association lists, outcomes, and methods that may throw
--   Model         include/cosim/model_description.hpp: variables, models, results of a step
--   Uri/Chars, Uri/Defs
--                 class uri: consume_scheme, consume_while and so on are functions on a `View`, a
--                 std::string_view with its place in the string; `parse` and `compose` are the two
--                 constructors, `components` is the accessors
--   Uri/Grammar   the recomposition of RFC 3986, section 5.3, as a description of its own
--   Uri/Views, Uri/Consume, Uri/Parse, Uri/Unique, Uri/Compose, Uri/Query
--                 theorems on the two constructors
--   Uri/Percent   percent_encode, percent_decode, percent_encode_uri, and theorems on them
--   Uri/Resolve   resolve_reference, merge, remove_dot_segments, and a theorem on the loop
--   Uri/File, Uri/File/RoundTrip
--                 path_to_file_uri and file_uri_to_path on POSIX, and theorems on them
--   Simulator/GetCache, Simulator/SetCache
--                 get_variable_cache and set_variable_cache, with a child module of theorems each
--   Simulator/Impl, Simulator/Slave, Simulator/Variables
--                 slave_simulator and its impl: a `Channel` for each type of variable, the calls to
--                 the slave, the state guard, and the methods type by type
--   Algorithm/Defs, Algorithm/Step
--                 fixed_step_algorithm::impl: its maps, connections, initialize and do_step
--   Algorithm/Lcm std::lcm
--   Algorithm/Schedule, Algorithm/Connections, Algorithm/Factors, Algorithm/Transfers,
--   Algorithm/Changes, Algorithm/Reach
--                 theorems on the algorithm
--   Function/Description, Function/Substitute, Function/VectorSum, Function/LinearTransformation
--                 include/cosim/function and src/cosim/function: descriptions, the replacement of
--                 placeholders, and the two functions that the library has
--   Function/Parameters, Function/Instances, Function/Sums, Function/Lines
--                 theorems on them
--   Execution/Defs, Execution/Step
--                 execution::impl: its state, adding and connecting, step and simulate_until
--   Execution/Ids, Execution/Injection
--                 make_variable_id, make_function_io_id and inject_system_structure; its child
--                 modules have theorems on the indexes
--   Execution/Steps, Execution/Runs, Execution/Connections, Execution/Initial
--                 theorems on the execution
--   SystemStructure/Defs, SystemStructure/Operations
--                 system_structure with its two caches, is_valid_connection, add_variable_value, and
--                 find_variable of src/cosim/model_description.cpp
--   SystemStructure/Tables, SystemStructure/Growth, SystemStructure/Invariant,
--   SystemStructure/Values, SystemStructure/Compose
--                 theorems on system structures, and on their connections in an execution
--   ThreadPool/Defs, ThreadPool/Counts
--                 thread_pool: the moves of its workers, and theorems on all their orders
--   Observer/Series
--                 src/cosim/observer/time_series_observer.cpp: the samples of one simulator
--   Observer/Times, Observer/Reach, Observer/Windows
--                 theorems on the samples
--   Observer/Last, Observer/Last/Values
--                 src/cosim/observer/slave_value_provider.cpp and last_value_observer.cpp, and
--                 theorems on the last values
--   Manipulator/Actions, Manipulator/Causality
--                 include/cosim/scenario.hpp, and the modifiers that an action sets and takes away
--   Manipulator/Scenario, Manipulator/Override
--                 scenario_manager.cpp and override_manipulator.cpp, with theorems in child modules
--   FileCache/Temporary, FileCache/Lock
--                 the temporary cache of file_cache.cpp, and file_lock of utility/concurrency.cpp
--   FileCache/Owners, FileCache/Sharing
--                 theorems on the cache
--   Orchestration, Orchestration/Lookup
--                 model_uri_resolver with the resolver of FMU files, and theorems on lookups
--   Tests         the theorems at concrete inputs
--
-- Code that throws returns an `Outcome`; a method of an object that may throw is a `Method`, which
-- keeps what was changed before the exception. A failed COSIM_PRECONDITION is the outcome
-- `terminated`; an access out of bounds and a least common multiple that is no int are `undefined`.
-- Slaves, simulators and functions are
-- parameters, records of the operations that the code calls (`SlaveOps`, `EntityOps`, `Parts`), and
-- so are the type double and its operations. What the components of an execution share is one state,
-- its `World`; pointers into it are opaque. Characters are bytes.
--
-- Bounds and fuel. A std::size_t is a number modulo 2^64, where percent_decode lets it wrap; the
-- quotient of two durations is cast to an int of 32 bits. The loop of percent_decode runs on fuel,
-- the length of its input, and each round shortens the input; that of remove_dot_segments likewise.
-- The loop of simulate_until runs on fuel, a round a step; a step takes at least a tick, so the ticks
-- that are left, and one, are enough. Whether another thread has called stop_simulation is asked of a
-- function of the round. The least common multiple is searched for up to the product. Step counters,
-- times and durations are not bounded.
--
-- Not modelled: the observer that writes files, and of the time series observer what works on
-- several simulators or looks up steps by their times; the persistent file cache, and the table of
-- mutexes that locks of one file share; paths of Windows; parsers of XML, JSON and YAML, scenario
-- files with them, the FMI import and the proxy, which are glue to other libraries; logs, the file
-- system and the real-time timer, which are I/O and clocks. Observers and manipulators are parameters
-- of the execution. The algorithm does not call the thread pool here:
-- between two waits its tasks touch one simulator each and are run in the order of the map. An
-- exception in a task ends the process, or is thrown on if the pool has no threads.
-- Of the `assert`s, the one that a variable is not set after its modifiers were run is there, and ends
-- the process; the other ones and the texts of errors are left out.
pub mod Base
pub mod Model
pub mod Uri
pub mod Simulator
pub mod Algorithm
pub mod Function
pub mod Execution
pub mod SystemStructure
pub mod ThreadPool
pub mod Observer
pub mod Manipulator
pub mod FileCache
pub mod Orchestration
pub mod Tests
