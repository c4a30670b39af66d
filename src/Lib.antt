-- ===== src/Lib.antt =====
-- The off-chain automation of ClaimRush: the agent SDK (agents/sdk) and the keeper (keeper). What runs
-- unattended decides here which transactions to send, when, and with whose authority. This library models
-- that deciding code; the calls to the chain, the files and the clock are arguments of the definitions.
--
-- The parts and how they interact. The runner of the agent asks the planner for actions, and the executor
-- lets each pass the execution policy before it makes a call; the results feed the backoff controller,
-- which paces the loop, and the event cursor keeps track of the events that the loop has processed. The
-- keeper's daemon asks the settlement scheduler at each step whether a cycle opens or closes and which
-- batch of users is due; its transactions report to the circuit breaker, which can pause it, and are
-- audited against its balance, and its cadence follows the tier of the RPC upstream.
--
--   Prelude: lists, texts, Boolean tests and integers. Addresses and names are lists of character codes.
--     A JavaScript `bigint` that may be negative is an integer, other quantities are natural numbers; the
--     source bounds neither, so nothing wraps around.
--   Backoff: agents/sdk/src/agent/backoff.ts. Types has the configuration and the state, Backoff the
--     methods of `BackoffController` (onActionResult is on_action_result, maybeClear is maybe_clear),
--     Bounds, Escalation and Streak the theorems.
--   Settlement: keeper/src/run/settlement.ts and the loop of keeper/src/run/daemon.ts that calls it. Types
--     has the state, Window computeNextWindowMs, Cycle the opening and closing of cycles (openCycle,
--     closeCycle, loadSettlementState, and the daemon's step as tick), Progress the marks and queries of
--     batches (markBatchCompleted, getNextDueBatch), Round the daemon's work on the due batch with its
--     guards (a missing task, the drift of the vault's quote, the backoff of a retry) and its failures;
--     Catchup, Batches and Rounds have the theorems. The skipping of elapsed windows in `advance` is a loop
--     on fuel: one more than the current time in milliseconds is enough for a positive period, since each
--     turn moves the window by at least one.
--   Agent.Actions, Agent.Bigints, Agent.Addresses: the `AgentAction` union of agents/sdk/src/agent/types.ts,
--     and its fields as agents/sdk/src/agent/actionSecurity.ts enumerates them, in the declared order.
--   Agent.Permissions, Agent.Requirements: the bits of agents/sdk/src/delegation/permissions.ts and
--     agents/sdk/src/agent/delegationRequirements.ts.
--   Agent.Policy: agents/sdk/src/agent/policy.ts. Maintenance and Plan have `buildActionPlan`, one
--     definition for each section; Authorised, Sections, Delegated and Authority show who authorises an action,
--     Value, Spending and Budget what a plan spends.
--   Agent.Security: agents/sdk/src/agent/actionSecurity.ts, and its use in
--     agents/sdk/src/agent/executorImpl.ts. Types, Shape and Check have the code, one definition for each
--     group of checks; Sound, Inputs, Kinds and KingBucket the theorems. viem's `isAddress` is a parameter.
--   Agent.Cursor: agents/sdk/src/agent/eventCursor.ts. State has the operations, Keys, Window, Restart and
--     Chain the theorems. What the chain answers for a block is an argument.
--   Agent.Throttle: the semaphore of agents/sdk/src/util/semaphore.ts, as a step relation.
--   Subgraph: the mappings of subgraph/src over the entity store of graph-ts. Table is a store of rows by
--     id, Schema the entities of subgraph/schema.graphql, Users utils/user.ts and utils/protocol.ts, Ve
--     utils/ve.ts, SortKey utils/sortKey.ts and utils/activity.ts. Locks has the handlers of
--     mappings/veClaimNFT.ts (Lifecycle, Closing, Transfer, Wiring, Notices), and the burn of a sold lock in
--     mappings/furnace.ts (Sold), Market those of mappings/marketRouter.ts (Listings, Keepers, and the
--     bonus-target escrows in Escrows), Mine those of mappings/minecore.ts, Delegation those of
--     mappings/delegationHub.ts with utils/delegation.ts. Each has its handlers in one run; Balance,
--     Coherence, Tally, Sound and Replay hold the invariants. Locks, Market and Mine share the users, the
--     locks and the listings of one Store; the sessions are run by themselves, since all that they share
--     with the rest is that a user's row exists. Calls of contracts are arguments that can revert, an
--     address is its number, and a handler's `load` is a copy that counts only once it is saved. A
--     uint256 has at most 78 digits, so 78 places print every one; the padding of keys has fuel for 20
--     characters.
--   Guards: keeper/src/shared. Breaker is circuit_breaker.ts (recordTxFailure, recordTxSuccess and
--     getCircuitBreakerPauseInfo as is_paused) with its theorems in Breaker.Trip, Payout is
--     payout_bound.ts and Tier is tier_observer.ts. What the state file holds is an argument.
--
-- Tests in each part run the definitions and apply the theorems at concrete inputs.
--
-- Not modelled: the calls of viem and of the file system, the executor's 40 call builders, the runner's
-- environment options, log lines and messages, the random spreading of batches, the keeper's tasks and
-- its shared services, the skill and the contracts; of the subgraph, the Furnace's rows, the vaults, the
-- royalties and the rate snapshots, whose refreshes are recorded as calls. Errors keep their cause, not
-- their text.
pub mod Prelude
pub mod Backoff
pub mod Settlement
pub mod Agent
pub mod Subgraph
pub mod Guards
