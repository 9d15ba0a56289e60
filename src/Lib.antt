-- ===== src/Lib.antt =====
-- Verification of the kdapp framework (applications/kdapps/kdapp; the paths below are under
-- applications/kdapps) and of applications that run on it.
-- A kdapp application is a state machine, an episode, whose commands arrive as payloads of
-- transactions. The framework's engine runs the episodes of one type: it opens them, checks
-- signatures, executes commands, keeps the rollback object of each command, and unwinds a
-- block's commands when the DAG reverts the block. It relies on a contract with the application:
-- a rollback object undoes its command. Some applications also feed the engine from an off-chain
-- channel, whose router hands every message that it takes to the engine as a block of one
-- transaction.
-- Base: shared helpers; Base.Frames is the layout that the two off-chain channels' messages
--   share. Numbers are natural numbers; a u64 addition wraps (add64). Maps are association
--   lists.
-- Kdapp.Episode: kdapp/src/episode.rs, the trait and the contract IsReversible.
-- Kdapp.Engine: kdapp/src/engine.rs. The engine is a record, a handler returns the new engine,
--   what it returns in the code, and the notices of its event handlers. Below it, Invariant and
--   Run treat a run of any length, Reorg and Blocks a block and its reversion, Guards and
--   Authority single messages, Filter the removal of old episodes.
-- Kdapp.Generator: kdapp/src/generator.rs, the search for a nonce that makes a transaction's id
--   match its episode's pattern. Its fuel is 2^32, as many as there are nonces.
-- Kdapp.Proxy: kdapp/src/proxy.rs, how the transactions of an accepted block are handed to the
--   engines.
-- Kdapp.UtxoCache: kdapp/src/utils/utxo_cache.rs.
-- TicTacToe: tictactoe/src/game.rs.
-- Merchant.Tlv, Merchant.Router: kdapp-merchant/src/tlv.rs, udp_router.rs and tcp_router.rs.
-- Merchant.Storage, Merchant.Invoices, Merchant.Subscriptions, Merchant.Episode:
--   kdapp-merchant/src/storage.rs and episode.rs, the episode together with the database that it
--   writes to.
-- KasDraw.Episode, KasDraw.Sorting: kas-draw/src/episode.rs, the lottery.
-- KasDraw.Tlv, KasDraw.Offchain: kas-draw/src/tlv.rs and offchain.rs, its off-chain channel.
-- CommentIt.Episode: comment-it/src/core/episode.rs, a room whose participants authenticate and
--   comment.
-- KaspaAuth.Challenge, KaspaAuth.Episode: kaspa-auth/src/crypto/challenges.rs and
--   core/episode.rs, challenges and sessions.
-- CommentBoard.Commands, CommentBoard.Contract, CommentBoard.Board, CommentBoard.Episode:
--   comment-board/src/episode/commands.rs, contract.rs and board_with_contract.rs, a board whose
--   comments carry bonds.
-- CommentBoard.Scripts: comment-board/src/wallet/kaspa_scripts.rs, the layouts of the bond
--   outputs' scripts.
-- CommentBoard.Wallet, with Selection, Bonds, Making, Splitting and Submitting below it:
--   comment-board/src/wallet/utxo_manager.rs, the wallet that selects coins, makes bonds and
--   keeps their books.
-- Indexer.Ordered, Indexer.Store, Indexer.Listener: kdapp-indexer/src/storage.rs (the store in
--   memory), models.rs and listener.rs, what is indexed of the comment rooms. Below
--   Indexer.Mirror and in Indexer.Queries the store stands beside the engine that runs the rooms
--   of CommentIt.Episode.
-- McpServer.Game: kdapp-mcp-server/src/state.rs, the game that the server runs.
-- Tests: concrete runs.
-- Conventions. A key, a hash, a signature and a message digest are numbers; a byte string is a
-- list of numbers. State that the code mutates is passed on, also beside an error. A panic is
-- none. borsh, SHA-256, BLAKE2b, secp256k1 and the event handlers but the indexer's are
-- parameters; sled's trees are maps whose writes succeed. The order in which the code goes
-- through a HashMap is not observable in what is modelled. A submission is tried three times,
-- and a wallet splits coins thirty times, as the code counts; the node's answers are parameters.
-- The engine's channel and the routers' sockets are lists of what arrives. The indexer's store
-- in memory does not fail. Characters are code points. A router's stream takes fuel, one for
-- each message; each message has at least 84 bytes, so the stream's length is enough; the
-- decimal digits of a u64 take fuel 20, as many as it has.
-- Not modelled: network, HTTP, command lines, key stores and logging, which only call the parts
-- above or libraries; and the episodes of the other applications.
pub mod Base
pub mod CommentBoard
pub mod Kdapp
pub mod TicTacToe
mod Tests
pub mod Merchant
pub mod KasDraw
pub mod CommentIt
pub mod Indexer
pub mod McpServer
pub mod KaspaAuth
