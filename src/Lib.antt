-- ===== src/Lib.antt =====
-- A verification library for cwl-go, an engine for the Common Workflow Language.
--
-- The program loads a document (pkg/salad, pkg/cwlcore) and runs it (pkg/cwlexec): a plan of steps
-- is made, and an event loop starts each step behind the steps that it depends on, expands a
-- scattered step into invocations, hands these to handlers, records what they return, and gathers
-- the outputs. The requirement scope tells which requirements are in effect for a process.
--
-- The files, by the code that they model:
-- - Value: Go's `any` along the edges of a workflow.
-- - Scatter/Jobs, Scatter/Assembly: pkg/cwlexec/scatter.go. `expand_scatter` is ExpandScatter,
--   `gather` is Gather. Scatter/Ints, Offset, Grid, Nest, Placed, Gather, Shapes,
--   Expand, Inputs, Ranges and Keys are about it.
-- - Run/Types: the state of a run, from handler.go, runstate.go, plan.go and loop.go.
-- - Run/Sinks, Run/Gates, Run/Outcomes: inputs.go, when.go and the Outcome of handler.go.
-- - Run/Loop, Run/Dispatch: loop.go. An operation of runLoop is a function on the record `Loop`:
--   `start_step` is startStep, `launch` is launch, `deliver` is what execute does with a finished
--   invocation, `dispatch` is dispatch.
-- - Run/Results, Run/Resumed: result.go, and checkDeclaredOutputs of outputtype.go.
-- - Run/Moves is the run as a step relation; Run/Frames, Settled, Recorded, Started, Invariant,
--   Order, Effects, Limits and Sourced are about it. Run/Priority is about
--   `result`, Run/Injected about `inject_one`, Run/Picked about `pick`.
-- - Run/Measure, Decrease, Passes, Ends and Rounds are about the rounds of dispatch. Run/Pending is
--   pkg/cwlexec/dispatch.go, the same loop driven by a caller (`pending_batch` is Pending); Run/Counted
--   and Handed are about it.
-- - Plan/Edges, Plan/Cycles: the edges of pkg/cwlexec/plan.go (`resolve_edges` is resolveEdges) and
--   the depth-first search of checkAcyclic; Plan/Wired, Ranked, Searched, Acyclic, Enough and Complete
--   are about them.
-- - Names: ShortName of handler.go. Schema: the types of pkg/cwlcore/types_schema.go. Schema/Conform
--   and Schema/Inputs: outputtype.go and validate_inputs.go of pkg/cwlexec; Schema/Primitives, Fits and
--   Supplied are about them.
-- - Command/Values, Choice, Bindings, Walk, Render, Line and Shell: clt_binding.go, clt_render.go
--   and clt_cmdline.go of pkg/cwlexec. A function that appends to `b.bound` returns what it appends.
--   Command/Words is a reader of shell words with its own list of special characters; Command/Quoted, Keyed, Ahead and Sorted are about the
--   command line.
-- - Expressions/Scan: pkg/cwlcore/expression_scan.go, with scan_fragment for scanFragment;
--   Expressions/Sound, Steps and Scanned are about it.
-- - Resources/Select: DefaultSelectResources of pkg/cwlexec/resources.go; Resources/Selected is about
--   it.
-- - Sorting: pkg/cwlexec/clt_sort.go.
-- - Requirements: requirements.go, requirements_inherit.go and requirements_check.go of pkg/cwlcore.
-- - Prelude: what the other files share.
--
-- Handlers run concurrently, but the loop alone changes the state: an invocation in flight is one
-- that was dispatched and has no status, and its result may arrive at any later move. A move starts
-- a ready step, launches a waiting invocation, or delivers one in flight.
--
-- `dispatch` takes fuel for its rounds and returns `none` where it runs out; some number of rounds is
-- enough in every state. `check_acyclic` takes as fuel the depth of its recursion, and one
-- more than there are steps is enough; `scan_fragment` takes the steps of its loop, and twice the
-- number of runes and one is enough. Every other loop is recursion on a list, a type or a count.
--
-- Go's int is an integer without wrap-around, but for the products of lengths that scattering
-- computes: these are bit patterns modulo 2 ^ 64, and the theorems on them say where a product must
-- fit. The offset of coordinates is not wrapped: where they are in bounds it is below that product.
-- `panicked` stands for the panics of an index out of range in jobInputs and of `make` with a negative
-- capacity in gridCoordinates; that of `make` in nest and Gather is left out. An error is its
-- sentinel, without the text around it. A map is an association list, or a function where the code
-- never asks for its keys.
--
-- Parameters: the expression evaluator, step defaults and the reading of files, the types of outputs,
-- and the building of a handler's call (the record `Engine`); for command lines the evaluator, the
-- resolution of named types, and the text, number or path that an opaque value holds (the records
-- `CmdBuilder` and `Forms`); float64 with its order (the record `Floats`). Not modelled: the loading
-- of documents, the decoding of steps, cancellation, the files and processes of a command line tool,
-- and the commands.
pub mod Prelude
pub mod Value
pub mod Scatter
pub mod Run
pub mod Plan
pub mod Sorting
pub mod Requirements
pub mod Names
pub mod Expressions
pub mod Resources
pub mod Schema
pub mod Command
