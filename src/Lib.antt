-- ===== src/Lib.antt =====
-- Verification library of tail-claude-mux: a model of the core of its server, which watches coding
-- agents in tmux panes and tells a sidebar about them, with the theorems that make it correct.
--
-- The parts and how they interact. Watchers turn what agents write into events, and a scanner
-- looks for agent processes below every tmux pane. The tracker folds both into one row per agent
-- and thread, which the sidebar's state is read from. Beside it the server keeps the order of the
-- sessions, an activity log for each session, the sidebar's width, and the delegations of work
-- from one agent to another with their messages.
--
-- Base            shared names, Boolean tests, an interface for equality, lists over native
--                 numbers, texts, maps as association lists, a stable sort, decimal numbers
-- Wire            apps/server-go/wire/wire.go: statuses, liveness, AgentEvent, the metadata
--                 records, SessionData; Hook and Ingress: apps/server-go/wire/hook.go
-- Tracker         apps/server-go/internal/tracker/tracker.go: Keys and State (the Tracker struct
--                 and its helpers), Apply (ApplyEvent), Scan (WaitingOver, Clears), Loop (loops
--                 over all rows), Passes (PruneStuck, ReconcileStaleRunning, PruneTerminal,
--                 RunLivenessSweepOnce), Queries (GetState, GetEvent, GetAgents, MarkSeen,
--                 HandleFocus, Dismiss), Presence (ApplyPanePresence, step by step)
-- AgentMatch      apps/server-go/internal/agentmatch/agentmatch.go (CommMatches,
--                 AgentFromCommand) and apps/server-go/internal/panescan/panescan.go (matchTree,
--                 collectAgentPids, Scan, AgentPidsByPane)
-- Delegation      apps/server-go/internal/delegation/store.go and messages.go
-- SessionOrder    apps/server-go/internal/sessionorder/sessionorder.go
-- Metadata        apps/server-go/internal/metadata/metadata.go
-- WidthSync       apps/server-go/internal/widthsync/widthsync.go
-- TextUtil        apps/server-go/internal/textutil/textutil.go
-- ProcWalk        apps/server-go/internal/procwalk/procwalk.go: the snapshot's parser and the walks
-- ClaudeWatch     apps/server-go/internal/ccwatch: Registry, Words, Hooks, Seed and State (the
--                 session files, HandleHook, the cold start, the probe of ccwatch.go), Transcript,
--                 Tools (its heuristics), Result (ResultForThread), Thinking (thinking.go), Verb
--                 (verb.go)
-- CodexWatch      apps/server-go/internal/codexwatch/codexwatch.go: State, Rollouts (what a process
--                 holds open), Hooks (HandleHook), Seed (the cold start)
-- Server          apps/server-go/internal/server: Readings, Logs, Sessions and Bindings (watch.go),
--                 Waits and Handoff (wait.go, with resolveTrackedEvent of agentpane.go),
--                 Mailbox (wait.go and delegationmessage.go)
-- ServerState     apps/server-go/internal/state/state.go: the focus rule of Build, formatUptime and
--                 itoa, the configuration's defaults
-- Tests           runs at concrete inputs
--
-- How state and operations correspond to the code. An operation is a function from its arguments
-- and the state to its result and the state after it, under the code's name in snake case. A Go
-- map that a loop ranges over is an association list, whose order stands for the order of the
-- range, so that what holds of every list holds of every order; a map that is only read and
-- written at a key is a function. A write through a pointer that a map holds is a write at its
-- key. The local map of ApplyPanePresence is a value of its own, because the tracker may drop the
-- map that it points to. The clock, the pid probe, random bytes and the success of a write are
-- arguments. What a watcher's hook sees of the files and of tmux is a record that each call is
-- given, and what it emits is part of its result. A pointer that the code compares is a serial
-- number. A loop that waits is a function on the list of what wakes it, a poll, the deadline or
-- the end of the request, each with what the loop looks at next; its result is none while it still
-- waits. A swap of two entries in Reorder, which would panic out of range, gives none there.
-- A string is the list of its bytes, or of its runes where the code counts runes. Times and
-- counts are natural numbers, and a difference of times is 0 where the code's is negative, which
-- the comparisons with a limit that is not negative do not tell apart.
--
-- Fuel. StripAnsiEscapes runs on the length of its text, which every round shortens. CommMatches
-- runs on one more than the length of the command, since every round moves the offset on within
-- it. The walks of the process tree go down three levels, as the depths 0 to 2 of the code do. The
-- walks up from a process run on one more than the number of processes, since no process is
-- visited twice. The decimal digits of a number run on the number itself, in strconv.Itoa and in
-- the code's own itoa.
--
-- Not modelled: the JSON encodings, file, network, tmux and ps calls, the server's HTTP handlers,
-- timers and goroutines, its sidebar panes and follow-ups, theming and the waterfall view, the
-- command-line client, and the TypeScript packages.
pub mod Base
pub mod Wire
pub mod Tracker
pub mod AgentMatch
pub mod Delegation
pub mod SessionOrder
pub mod Metadata
pub mod WidthSync
pub mod TextUtil
pub mod ProcWalk
pub mod ClaudeWatch
pub mod CodexWatch
pub mod Server
pub mod ServerState
pub mod Tests
