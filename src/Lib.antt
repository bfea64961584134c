-- ===== src/Lib.antt =====
-- storage-fsm: the life of a sector of a storage miner, from the packing of its pieces to its
-- proof on chain and its removal, as a state machine whose record is stored and whose states each
-- have a handler.
--
-- Parts and how they interact. A client (sealing.go, garbage.go) sends a first event for a sector.
-- The state-machine library, which is outside the repository, collects the events of a sector in
-- batches and gives each batch with the stored record to `Plan` (fsm.go). `plan` logs the events,
-- looks up the planner of the record's state and runs it: planners change the record through the
-- events' `apply` and `applyGlobal` (fsm_events.go). The result names the handler of the new state
-- (states_sealing.go, states_failed.go, states_proving.go), which runs on a copy of the record,
-- calls the chain and the sealer, checks the sector against the chain (checks.go), and sends the
-- next event. Packing asks utils.go for the sizes of the filler pieces; the pre-commit asks
-- precommit_policy.go for the epoch at which the sector expires.
--
-- Files.
--   Base        shared names, lists and byte strings, errors, integers, int64 arithmetic, bits
--   Sector      types.go and sector_state.go: states, the stored record, its methods;
--               Sector/Methods relates them
--   Events      fsm_events.go: events, `apply`, `applyGlobal`
--   Fsm         fsm.go. Fsm/Table has the planners, Fsm/Plan has `plan` and `Plan`. Fsm/Rules is an
--               induction principle for the table, Fsm/Invariant what a record holds in each
--               state, Fsm/Accepts which events a state plans, Fsm/History the log, Fsm/Seed the
--               seed in Committing, Fsm/Stuck the states with no planner to leave by, Fsm/Batches
--               the batches of several events, Fsm/LifeCycle the stages of a sector's life,
--               Fsm/Kept the record past CommitWait
--   Fillers     utils.go `fillersFromRem`
--   Api         sealing.go (`SealingAPI`, `Sealing`), events.go, constants.go: the services, as
--               parameters;
--               Api/Action has early returns, and rules for what holds whatever the services answer
--   Checks      checks.go
--   Handlers    the handlers: Handlers/Packing, Precommit and Commit for states_sealing.go with
--               garbage.go, Zeros for what fills a sector, Failed for states_failed.go, Proving for states_proving.go; then
--               Outcome (how a handler ends), and Safety, Filled, Replicated, Submitted, Seeded,
--               Verified, Dead (proofs about them)
--   System      records that a sector can have, and handlers on them; System/Reach batches from the
--               creation on, System/Run a sector left to itself, with its handlers, callbacks and
--               events in turn. System/Seals is the way from Packing to PreCommitWait,
--               System/Completes that from there to Proving, System/Progress its end from CommitWait
--               on, System/GivesUp the loops of a prover that fails and of a verifier that refuses,
--               System/Retries the retries of the second sealing phase, System/Storage the record
--               in the datastore, System/Expires the pre-commit under the basic policy
--   Entry       sealing.go and garbage.go: the operations that clients call, and the restart of
--               tracked sectors; Entry/New has `New`, Entry/Begin and Entry/Pledged are about the
--               sectors that `SealPiece` and `PledgeSector` begin
--   Policy      precommit_policy.go
--   Cbor        cbor_gen.go. Cbor/Stream has writes and reads with their early returns, Cbor/Services
--               and Behaves the code of other packages and what is relied on of it, Cbor/Values one
--               value of each kind of field, Deal, Entries, States, SectorWrite and SectorRead the
--               types; then Rounds, Deals, Storable and Stored (round trips), Limits (refused records),
--               Gives and Bounded (what any stream can be read as)
--   Tests       concrete services and runs, those of the repository's tests among them
--
-- How state corresponds. `SectorInfo` is the Go struct with the same fields in snake case. A planner
-- is a function from a batch and a record to a record and a verdict, where Go changes the record in
-- place and returns an error: as in Go, a refused batch keeps what it has changed so far. A handler is
-- an action `World → Step × World`: `World` is whatever the services may depend on and change, so
-- two calls with the same arguments may have different answers; the step is the event sent, no
-- event, an error, a registered callback, or a panic. A nil pointer is `none`, and a read through it
-- is a panic; so is `minerSector` for a miner with no ID address.
--
-- Bounds and fuel. uint64 sums are taken modulo 2^64 and epochs are int64 values that wrap. The bit
-- loops of `math/bits` run on 64 rounds of fuel, one for each bit, which is all that a 64-bit number
-- has. Every other loop is a recursion on the list that it goes through, or on the count of fields,
-- entries or bytes that a header gives. The loops of a sector through its states, which end if the
-- services do their part, are runs of finitely many turns.
--
-- How bytes correspond. `MarshalCBOR` is an action on the world that its writer writes to, and
-- `UnmarshalCBOR` a function from a value and a stream to an error, or a value and the rest of the
-- stream. The generated code repeats the same lines for every field; here each kind of field has one
-- function, which takes the texts of its errors. What a failed `UnmarshalCBOR` leaves in the value
-- that it is given is dropped. A Go string is its text; its length is that of its bytes. A state is
-- a string in Go; here it is a constructor for each constant, and `other` for any other string.
--
-- Not modelled: gen/main.go (it runs the generator of cbor_gen.go), cbor-gen itself,
-- go-statemachine, the store, the clock, the encoders of messages and the sealer (parameters of the
-- model), text that is only logged, the format arguments of errors, an error of `ctx.Send` or of
-- `ChainAt` itself, and events of types that fsm_events.go does not declare.
-- Timestamps are native numbers. `Address` only reads a field.
pub mod Base
pub mod Sector
pub mod Events
pub mod Fsm
pub mod Fillers
pub mod Api
pub mod Checks
pub mod Handlers
pub mod System
pub mod Entry
pub mod Policy
pub mod Cbor
pub mod Tests
