-- ===== src/Lib.antt =====
-- Cathedral Assets Optimizer: the core of an Optimization Run.
--
-- The program optimizes the assets of game mods. A Run Request names a profile, a selection of mods
-- and the requested work; the Run Executor prepares the run, lets the work phases record what they
-- do in the run's evidence, cleans up and classifies the result. The parts that are modelled, in
-- Rust crates under crates/cao-core/src:
--
-- * Routing (routing.rs). Routing/Kinds holds the closed enumerations and the constant tables,
--   Routing/Policy the profile's capabilities and `RoutingPolicy::compile` with its conflicts as a
--   list, Routing/Route `AssetRouter::route` and `route_all`. A closed set (`[bool; n]`) is a
--   function to Bool, a path its list of components.
-- * Request (admission.rs, run/work_choices.rs, run/lifecycle.rs, run/preparation.rs).
--   Request/Choices holds the Work Choices, Request/Admission the Admission Rules with the admitted
--   work as the bits of a u8, Request/RunRequest the Run Request and its builders.
-- * Run (attempt.rs, execution.rs, run/lifecycle.rs and the result types of run/archives.rs and
--   run/finalization/mod.rs): the records that the phases leave, and the outcome of one attempt.
-- * Evidence (run/evidence.rs, run/evidence/attempt_phase.rs and planned_work.rs). Evidence/Storage
--   holds the storage, Evidence/Sinks the publication to the observer, Evidence/Phases the phase
--   transitions, Evidence/Facts the facts that are recorded once, Evidence/Attempts the attempt phases,
--   Evidence/Seal `consume` and the mutation summaries. Evidence/Operations makes every recording
--   step a constructor of one type, and `Reached` is what any sequence of them makes of fresh
--   evidence. A step gives the new evidence and the invariant that it reports, if any. The vector
--   of phases is kept latest first. An observer is a function from the publications that it has
--   seen and the new one to the message of its panic, if it panics.
-- * Packing (crates/cao-archive/src/name.rs): how a file name splits into stem and extension.
-- * Selection (run/mod_selection.rs): which Mod Roots a run processes. What the filesystem answers
--   (cao-winfs and the standard library) is the record `Filesystem`, a parameter.
-- * Executor (run/executor.rs). Executor/Services holds the boundaries that contain the panics of
--   the services, Executor/Preparing `prepare_run`, Executor/Traverse `traverse`, Executor/Execute
--   `execute_with_work`, Safety Cleanup and the terminal failures, Executor/Classification the Run
--   Outcome.
-- * Work (run/executor/work_phases.rs, with the interface of run/toolset.rs and parts of
--   run/archives.rs). Work/Flow holds computations that may end early (`PhaseFlow`), Work/Worker the
--   state of the work and its recording steps, Work/Toolset the interface that the phases call,
--   Work/Scope and Work/Visit the walk of a Mod Root, Work/GamePaths the names that order Archives,
--   Work/Discover, Work/Extract, Work/Tree, Work/Process and Work/Finalize the phases, Work/Run
--   `run_work_phases`. A directory tree is a finite tree that the state of the disk gives, so a walk
--   is a recursion on it; the set of the paths that have been diagnosed is a list.
-- * Finalization (run/finalization/mod.rs): Finalization/Plan the plans and the interface,
--   Finalization/Account what an executed phase accounts for, Finalization/Phase and
--   Finalization/Finalize the phase from `run_phase` to its containment of panics. A panic inside it
--   unwinds with the account as it stands.
--
-- * Capacity (run/capacity.rs, and `estimated_capacity_bytes` of run/archives.rs): Capacity/Demand
--   the sums, which saturate at the largest u64, Capacity/Check the checks over the volumes that are
--   frozen so far. A probe is a function of the number of the query, and may panic. Capacity/Sums,
--   Capacity/Frozen and Capacity/Bounds reason about them.
--
-- Work/Unrefused and Finalization/Keeps, Lawful and Concluding reason about recording steps with
-- rules for the parts of a phase; Work/DryRun does so about the disk, Work/Followed, Work/Attempts
-- and Work/Completing about the order of the attempts and their completion, Work/Beneath, Work/Walked
-- and Work/Diagnosed about the walks, Work/Ordered, Work/Given and Work/Giving about the Archives that
-- they find, and Work/Faultless
-- about a whole run of the executor with this work.
--
-- The record `Services` is the interface between the executor and the rest: the configuration
-- provider, the work phases, the preparation of a Mod Root's staging, the two cleanup services and
-- the observer are its fields; a theorem that needs something of them says so. To the executor the
-- work is given as the recording steps that it takes, since lent evidence changes in no other way;
-- Work/Run makes them. The record `Toolset` is the interface between the work phases and what they
-- call: the directory trees, the preflight, one extraction, one Asset attempt, and the seams of
-- Archive Finalization, each over the state of the disk. A cancellation token is a sequence of
-- samples: each call of `is_cancelled` reads the next, so another thread or an observer may cancel
-- between any two. A panic that is caught is a value. All loops are recursions on lists, but for the
-- publication of diagnostics, which recurses on the number of those that are waiting, and the
-- ancestors of a path, which recurses on its number of components; a parent has one component less.
--
-- Not modelled: the lines of the log, the execution of one asset (execution.rs), the preflight and
-- the extraction of one Archive (run/archives.rs), the planning and the attempts of Archive
-- Finalization (run/finalization/planning.rs, attempt.rs, plugins.rs), which are parameters,
-- staging and its recovery, the run service with its threads, the crates
-- cao-archive (over the ba2 library), cao-profiles, cao-optimizers (over DirectXTex and nifly),
-- cao-winfs (the Windows API), cao-gui and nifly-sys. Counts of the source are usize and
-- do not wrap here: each counts items that memory holds.
mod Shared
pub mod Routing
pub mod Request
pub mod Run
pub mod Evidence
pub mod Packing
pub mod Selection
pub mod Executor
pub mod Capacity
pub mod Work
pub mod Finalization
mod Tests
