-- ===== src/Lib.antt =====
-- A model of camino-network-runner, a program that starts and controls a network of nodes on one
-- machine, and theorems about it.
--
-- The parts of the program, and the files that model them:
--   network/config.go, network/node/node.go: Config (the configs), Config/Validate (Validate and
--     validateConfigFile, with NetworkIDFromGenesis of utils/utils.go), Config/Genesis
--     (NewAvalancheGoGenesis).
--   local/helpers.go: Local/Ports (getFreePort, getPort, getConfigEntry), Local/Files (writeFiles,
--     makeNodeDir, createFileAndWrite).
--   local/network.go: Local/State (localNetwork and the state of local/node.go), Local/Peers
--     (GetFlag and SendOutboundMessage of local/node.go), Local/Args (buildArgs,
--     getFlagsForAvagoVersion), Local/Network/Names (setNodeName, isPausedNode), Local/Network/Add
--     (addNode), Local/Network/Remove (removeNode, pauseNode, stop, Stop and the queries),
--     Local/Network/Restart (resumeNode, restartNode), Local/Network/Load (loadConfig, AddNode),
--     Local/Defaults (NewDefaultConfigNNodes, and the default config over what is embedded), Local/Health (healthy), Local/Network/Phases (what the
--     operations on nodes do to an abstract view of them).
--   local/node_process.go: Local/Process, a step relation over the status, the goroutine that waits
--     for the exit and the calls of Stop.
--   local/snapshot.go, utils/json.go: Local/Snapshot.
--   local/blockchain.go: Local/Chain/Nodes (getSomeNode, getClientURI, getSubnetValidatorsNodenames),
--     Local/Chain/Waiting (waitPrimaryValidators, waitSubnetValidators and the wait for a log),
--     Local/Chain/Validators (newWallet, addPrimaryValidators, addSubnetValidators, createSubnets),
--     Local/Chain/Files (setSubnetConfigFiles, setBlockchainConfigFiles), Local/Chain/Tracking
--     (restartNodes), Local/Chain/Txs (createBlockchainTxs, createBlockchains, reloadVMPlugins,
--     RegisterBlockchainAliases), Local/Chain/Install (installSubnets, installCustomChains,
--     CreateSubnets), Local/Chain/Blockchains (CreateBlockchains, waitForCustomChainsReady).
--   network/network.go: Config/Specs (SubnetSpec, BlockchainSpec, with VMID of utils/utils.go).
--   server/network.go: Server/Config (createConfig), Server/Network (the other methods).
--   server/server.go: Server/Control/Base (the server object and what its handlers share),
--     Server/Control (Start, CreateBlockchains, CreateSubnets, Stop), Server/Nodes (Health, URIs,
--     Status and the handlers over single nodes), Server/Snapshots (the handlers over snapshots and
--     WaitForHealthy), Server/Specs (getNetworkBlockchainSpec, getNetworkSubnetSpec and the checks of
--     utils/utils.go), Server/Calls (the handlers as one type of calls), Server/Stream (StreamStatus,
--     sendLoop, recvLoop, isClientCanceled), Server/Participants (VerifySubnetHasCorrectParticipants of
--     utils/utils.go).
--   client/client.go: Client (the options of a call, and the requests that Start, LoadSnapshot, AddNode
--     and RestartNode make of them).
--
-- How the parts meet: the server calls the local network through the record Backend of
-- Server/Backend, which stands for network.Network, node.Node, the P-Chain of a node and the Go
-- library; the local network calls the record World of World, which stands for the operating system,
-- avalanchego and the Go library, and the record Ledger of Local/Ledger, which stands for the clients
-- of the P-Chain, the wallet and the admin API. They are parameters of every definition that uses
-- them. Their operations act on an abstract state; what a theorem needs of them is one of its
-- hypotheses.
--
-- How code becomes definitions: a method that may fail is a function from a state to a result and a
-- state (Base/Exec): a value, an error value, or a panic of the run time; what was written before an
-- early return stays written. A Go map is an association list whose order stands for the order of one
-- range over it; a map that may be nil is an Option, and a write to a nil map panics. A float64 is its
-- bits, and its conversions belong to World. The results of %v and %q inside error texts are left out.
--
-- Bounds and fuel: the search for a default node name has one round more than there are nodes, which
-- is enough as long as the suffix and the number of nodes do not reach 2^64. The loop of getFreePort
-- has as many rounds as its deadline leaves, which World gives. WaitForHealthy is one round of its loop.
-- The loops of local/blockchain.go have a round for each time that their timer fires before another
-- channel of their select is ready, which the ledger gives; after it they end with the error of that
-- channel. The loop that looks for a log lets what happens elsewhere happen between two looks. A health
-- check makes the steps of its goroutines that the ledger gives.
-- Ports wrap around at 2^16 and the suffix of node names at 2^64, as in the code.
--
-- Concurrency: a handler holds the lock of the server, so it is one step; the goroutine that
-- LoadSnapshot starts is two steps of its own, its wait (await_loaded) and its end under the lock
-- (finish_load); a round of WaitForHealthy is one. The steps of
-- a node process, of a health check and of StreamStatus are finer, down to single blocking operations.
--
-- Not modelled: AttachPeer of local/node.go, a series of calls of avalanchego; Run, Ping and RPCVersion
-- of server/server.go; the calls of the client over the network, the commands, generated code, logging
-- and colours; the times that the default genesis gets when the program starts. The maps of one node's
-- config that resumeNode, restartNode and local/blockchain.go write to are shared with the node
-- that is in the network, and the model writes to both; maps that several nodes or the caller share are
-- not tracked.
--
-- Base holds the shared helpers; Tests holds concrete surroundings and an application of each result.
pub mod Base
pub mod World
pub mod Client
pub mod Config
pub mod Local
pub mod Server
pub mod Tests
