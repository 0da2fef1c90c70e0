-- ===== src/Lib.antt =====
-- A model of Server Entry, the C++ server of the repository.
--
-- json/: `Json` models the JSON writer and parser that the configuration loaders and the tools
-- use. `Json.Ascii`, `Json.Buffer`, `Json.Escape` and `Json.Unicode` are json_ascii.hpp,
-- json_buffer.hpp, json_escape.hpp and json_unicode.hpp (server_entry/json). `Json.Writer` is
-- json_writer: a member function takes the writer to the writer afterwards and the returned
-- status. `Json.Parser` is json_parser: `Text` has parse_string, `Number` parse_number, `Document`
-- the other functions; a run returns, or fails with an error code and an offset, and the handler
-- is the list of the events that it is sent. The buffer and the stack have a room, and an
-- allocation beyond it is the branch of the caught exception.
--
-- The loops of the parser run on fuel: parse hands out three calls for each character and one
-- more, parse_string a round for each character and one more, the UTF-8 check a round for each
-- byte. The theorems on progress show that this is enough.
--
-- `Json.Integer` is std::to_chars and std::from_chars on 64-bit integers. Doubles are not
-- modelled: a double is named by the text it is read from, and which texts std::from_chars accepts
-- as doubles is the parameter `is_double`.
--
-- project/string/: `Strings` models the string registry: string_registry in `Strings`,
-- string_registry_update in `Strings.Update`. A record is its bytes and a reclaimed record is
-- `none`; the owner of an update is an argument. `allocated` says whether the allocations of a
-- call succeed. `Strings.Index`, `Strings.Publish`, `Strings.Intern`, `Strings.Commit` and
-- `Strings.Compaction` have the proofs.
--
-- project/parser/: `Lexer` models lexer.cpp and token.hpp: the scanners of a token in `Lexer`, the
-- loop of lex_source in `Lexer.Loop`, the proofs in `Lexer.Order`, `Lexer.Rounds` and
-- `Lexer.Runs`. A round for each byte and one more is enough fuel. `allocated` and `emitted` say
-- whether the allocations of the run and the storing of the diagnostic succeed.
--
-- project/parser/source_context.cpp and project/builder/source_build_entry.cpp: `Names` has the
-- names that both classes pack into one array, `Names.Context` and `Names.Entry` the functions of
-- each.
--
-- project/graph/builtin_type.hpp, builtin_type.cpp: `Types` has the built-in types with their
-- widths and signs on a target, `Types.Integral` the constants and their conversion (fits_integral
-- and convert_integral of graph.cpp), `Types.Integral.Enum` the type of an unscoped enumeration. A
-- constant is its kind and its 64 bits as a number.
--
-- project/graph/graph.cpp, graph.hpp, compiled_state.hpp: `Graph` models the committed graph.
-- Handles, references and ids are numbers that stand for positions in the arrays; a map is an
-- association list. `Graph.Lookup` has the lookups, `Graph.Dependencies` rebuild_dependency_index,
-- `Graph.Compiled` export_compiled, swap_compiled and, in `Graph.Compiled.Arrays`, `Tables` and
-- `Import`, import_compiled; `Graph.Interning` has the two functions of graph_update that enter
-- canonical types, where `Memory` says which insertions of a call find memory. `allocated` and
-- `index_allocated` say whether the allocations of a call and those of the dependency index
-- succeed. The candidate slots of an update, the replacement of sources and the publication of
-- updates are left out.
--
-- project/graph/compiled_persistence.cpp: `Artifact` models the format of a compiled project: the
-- words, the checksum and the places of the sections in `Artifact`, the records in
-- `Artifact.Records`, writing in `Artifact.Encode`, reading in `Artifact.Decode`, the proofs in
-- the children of `Artifact.RoundTrip`. A pointer into the file is the rest of the bytes; the
-- writes are in the order of their offsets, so the file is their concatenation; shifts, `|` and `&
-- 0xff` on disjoint bits are written as arithmetic. The hash sha256 is a parameter, with 32 bytes
-- as its result. The metrics are not modelled.
--
-- project/builder/source_contribution_cache.hpp, source_contribution_cache.cpp: `Contributions`
-- models the cache of what each source contributed, `Contributions.Update` its updates. The owner
-- of an update is an argument and part of the result; a reference to a candidate is its id, and
-- `write_candidate` and `write_entity` are the writes through it. The arguments that are Booleans
-- say whether an allocation succeeds. `Contributions.Tracked` has the invariant,
-- `Contributions.Replaced`, `Contributions.Touched`, `Contributions.Published` and
-- `Contributions.Remap` the operations.
--
-- project/graph/graph_manager.hpp, graph_manager.cpp: `Manager` models the graph manager without
-- its source manager: the state that the runtime sees, begin_build and complete_build, and the
-- loads of checkpoints. `Manager.Checkpoint` has write_compiled_checkpoint and
-- read_compiled_checkpoint of compiled_persistence.cpp; what the functions on files answer (the
-- temporary file, read_all, publish_checkpoint) is given. `Manager.Loading` has the proofs on
-- loads, `Manager.Traces` the sequences of calls. The transaction that begin_build opens is not
-- modelled, only its mode.
--
-- project/parser/source_environment.hpp, source_environment.cpp: `Environment` models the
-- interface of a source and the lookups of names in the interfaces that are visible at an offset;
-- `Environment.Visible` has the proof. The imports of an interface are in it, so a lookup ends.
--
-- The other parts of the server (the updates of the graph, construction, frontend, source manager,
-- transactions, configuration, logging, metrics) are not modelled.
pub mod Prelude
pub mod Json
pub mod Strings
pub mod Lexer
pub mod Names
pub mod Types
pub mod Graph
pub mod Artifact
pub mod Contributions
pub mod Manager
pub mod Environment
