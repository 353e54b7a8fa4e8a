-- ===== src/Lib.antt =====
-- A model of the behavioral model (bmv2), the P4 software switch, and of its correctness.
--
-- Base holds what the modules share. Judy is the interface of the Judy arrays, a library outside the
-- repository: the operations are parameters, with the laws that Judy documents; Judy.Model gives
-- concrete ones, an association list, and Judy.Sets a list of indexes.
--
-- Trie models modules/bf_lpm_trie/src/bf_lpm_trie.c. Nodes stand on an explicit heap, with their
-- parent pointers and their wrapping counters; a fault (a bad pointer, a read past a key, a failed
-- assertion) is `none`. The loops over a key recur on its bytes, lookup on the width left, and the
-- upward loop of delete on fuel, one round for each byte of the prefix and one for the root.
-- Trie.Shape states well-formedness and the map of values a heap stands for; Trie.Enter, Paths,
-- SamePrefix and Grow carry the proofs for insert. Not modelled: destroy, and malloc failing.
--
-- Handles models HandleMgr of modules/bm_sim/include/bm_sim/handle_mgr.h, over the interface of the
-- Judy1 sets.
--
-- Units models the match units of modules/bm_sim/src/match_units.cpp: the entries, their handles with
-- versions, their metadata, and the operations add_entry, delete_entry, modify_entry, get_value,
-- get_entry, set_entry_ttl, lookup, sweep_entries and reset_state. The key builder and the lookup
-- structure are parameters; Units.Shape states the invariant and what is asked of a lookup structure.
--
-- Lookups models modules/bm_sim/src/lookup_structures.cpp: the exact map, an association list here,
-- and the ternary map. Lookups.Exact has the laws of the exact map, as Units asks for them.
-- A priority, an int, is stored with 2 ^ 31 added to it.
--
-- Meter models modules/bm_sim/src/meters.cpp and modules/bm_sim/include/bm_sim/meters.h: set_rates
-- and execute of class Meter. The floating-point product that gives the tokens earned is a
-- parameter; the sum of tokens wraps at 2 ^ 64; the failed assertion is `none`.
--
-- Pre models the packet replication engine of modules/bm_sim/src/simple_pre.cpp, over Handles:
-- groups, nodes and the entries below them, and replicate. An exception is `none`. Pre.Maps holds
-- the maps, association lists without a key twice.
--
-- Queueing models class QueueingLogic of modules/bm_sim/include/bm_sim/queueing.h. A call is one
-- step under the lock of its worker; a call that waits is `blocked`, a failed `at` `out_of_range`.
-- The function from queues to workers is a parameter.
--
-- Expr models modules/bm_sim/include/bm_sim/expressions.h and modules/bm_sim/src/expressions.cpp, and
-- P4Objects::build_expression of modules/bm_sim/src/P4Objects.cpp: expressions as operations, the
-- registers that build() gives them, the stack machine of eval_, and VLHeaderExpression. Expr.Tree
-- has the expressions of the JSON input as trees, typed: a tree that mixes numbers and Booleans
-- without a conversion is left out. class Data and the packet are parameters. A stack that is
-- empty, an index out of range and a failed assertion are `none`.
--
-- Tables models the indirect match tables of modules/bm_sim/include/bm_sim/match_tables.h and
-- modules/bm_sim/src/match_tables.cpp, over Units and Handles: class MatchTableIndirect, with its
-- members and their reference counts, and the next nodes of class MatchTableAbstract. Tables.Uses
-- counts the entries in use that name a member, and Tables.Sound has the invariant. An assertion
-- that fails is `none`, with its side effects as in a build that has assertions. Not modelled: the
-- groups of MatchTableIndirectWS, counters and meters behind a handle, the locks and the logs.
--
-- Stacks models class HeaderStack of modules/bm_sim/include/bm_sim/header_stacks.h, with the swap and
-- the validity of class Header of modules/bm_sim/include/bm_sim/headers.h. The headers of a stack
-- are distinct objects, so they are a list. Stacks.Shifts has its loops. The headers
-- have a fixed length.
pub mod Base
pub mod Expr
pub mod Handles
pub mod Judy
pub mod Lookups
pub mod Meter
pub mod Pre
pub mod Queueing
pub mod Stacks
pub mod Tables
pub mod Trie
pub mod Units
