-- ===== src/Lib.antt =====
-- A verification library for the resolution prover.
--
-- The program reads a file of clauses, keeps every symbol, term and clause in a pool and refers to
-- them by number, and searches for the empty clause by binary resolution and factoring in a
-- given-clause loop. From an empty clause it reads the proof back.
--
-- Which file models which part (paths from the repository's root; a header's path is given without
-- `include/atp/`):
--   Core/Types        core/types.h, core/term.h, core/literal.h, core/clause.h
--   Core/SymbolTable  src/core/symbol_table.cc: intern, getInfo, getName, isVariable
--   Core/TermBank     src/core/term_bank.cc: makeTerm, makeVar, getTerm, isVariable
--   Core/ClauseStore  src/core/clause_store.cc: addClause, getClause
--   Infer/Substitution  src/infer/substitution.cc, and applySubstitution of src/infer/unification.cc
--   Infer/Unification src/infer/unification.cc: unify
--   Infer/Renaming    src/infer/resolution.cc: collectVariables, renameVariables
--   Infer/Resolution  src/infer/resolution.cc: resolve, allResolvents, factor
--   Simplify/Subsumption, Simplify/Tautology  src/simplify/: subsumes, isTautology
--   Search/ClauseQueue  search/clause_queue.h, and std::priority_queue as an interface
--   Search/Prover     src/search/prover.cc: every operation of the class Prover
--   Proof/Trace, Proof/Text  src/proof/proof_trace.cc: extractProof, and the printers
--   Frontend/Lexer    src/frontend/tptp_parser.cc: the class TptpLexer
--   Frontend/Problem  src/frontend/tptp_parser.cc: parseRole, prepareForProving
--   Frontend/Parser   src/frontend/tptp_parser.cc: the class TptpParser, parseTptpString
--   Program           src/main.cc
--   Frontend/Terms    src/frontend/tptp_parser.cc: how parseTerm makes a term
-- Beside them, Prelude holds the shared helpers, and Semantics says what terms and clauses mean: a
-- structure gives each symbol a function on one carrier, a clause is valid when under every
-- assignment one of its literals holds. Tests holds concrete runs.
--
-- How a run is modelled. Stateful code passes its state on and gives an `Outcome`: `done` with a
-- result, or `failed` with a reason, which is a read out of bounds, no memory, an exception of
-- `intern` or of the parser, or no fuel left. A `Machine` says what the program runs on: how many
-- elements a container can hold, how much fuel an inner recursion has, and in which order a hash
-- map is walked, of which only is assumed that it is a permutation. The number of a new element is
-- its place, cast to 32 bits; theorems that need the cast to lose nothing assume a capacity below
-- 2³². A statement `Post P run` speaks of the result of a run that returns one. Such a statement
-- is made of the inferences. The code that follows bindings (resolve, apply, occursIn, unify) does
-- not return on cyclic bindings. With the occurs check on, `unify` and `applySubstitution` are
-- proved to return: each binding may double the heights of terms, so `enough_for` n, which is n +
-- 1 times the `height_limit` n + n · 2ⁿ + 1, is fuel enough for a bank of n terms. `factor` ends
-- with as much for the capacity. `extractProof` has fuel for two numbers on its stack from each
-- clause, and is proved to return. The printer of a term calls itself on its arguments, which have
-- lower numbers, so as much fuel as the bank has terms is enough. The parser has fuel for one call
-- or round on each byte of the source and two more, and `Ends P run` says that it returns or
-- throws an exception: it neither uses the fuel up nor reads out of bounds.
--
-- The program has one symbol table, one term bank and one static counter for the names of new
-- variables; the bank and the counter are an `Engine`, which all inferences pass on. A hash map is
-- an association list without repeated keys. The store is an argument of `Prover::Prover`, empty
-- as in `main`. A priority queue is a parameter with its documented behaviour: the elements are
-- those pushed and not popped, and no element comes before the one popped;
-- Search/ClauseQueue/Listed fills it with a list.
--
-- `main` takes the content of each file as an argument. Of what it writes, the standard output is
-- modelled, together with the exit code, and the rounds of the prover are those that the limit on
-- the iterations allows.
--
-- Not modelled: what goes to std::cerr, the texts of exceptions, utils/logger.h, and parts of the
-- program that are declared and not written (index, normalize, rewrite, strategy, the class
-- SubsumptionEngine). The occurs check is a setting of the program that is off by default; the
-- theorems that inferences and the prover are sound assume that it is on, and those about `main`
-- speak of each setting or of the default.
pub mod Prelude
pub mod Core
pub mod Semantics
pub mod Infer
pub mod Simplify
pub mod Search
pub mod Proof
pub mod Frontend
pub mod Program
mod Tests
