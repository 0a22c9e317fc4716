-- ===== src/Lib.antt =====
-- Bitcoin Argus runs Bitcoin test networks with their services, a dashboard and a faucet. This
-- library models the faucet (argus/faucet), the dashboard's history, metrics and Lightning
-- addresses (argus/web), the block claimer (argus/claimer_src) and the parts of the deployment
-- generator (argus) that decide which services run, which host ports they get and when a mined
-- network is reset.
--
-- Common has what all files share: tests and lists, Common.Table for the tables of a database and
-- Common.Float for the floating-point numbers, an interface with the facts about doubles that are
-- used and a fixed-point instance for the examples, Common.Segments for lists that are put
-- together from segments and Common.Traverse for lists of results that may fail.
--
-- Faucet.Store is argus/faucet/store.py: a Database is a record of tables, each a list of rows,
-- and each function of the store is a function on it. Store.Operations has the writing ones as
-- data. Faucet.Rules is argus/faucet/rules.py; what it demands is said in Rules.Permits without
-- the rules. Faucet.Amount has the conversion of BTC to satoshis of argus/faucet/app.py, with the
-- rounding of decimal numbers to 28 digits and to the smallest exponent, overflow and underflow.
-- Faucet.Approval is argus/faucet/approval.py, Faucet.Subsidy is argus/faucet/difficulty.py,
-- Faucet.Address is argus/faucet/addresses.py, Faucet.Pow.Target and Faucet.Pow.Token are
-- argus/faucet/pow.py, Faucet.Config has the settings of argus/config.py that the faucet reads.
-- Faucet.Dispensing has the data of a request and Faucet.Request puts these together as
-- `_process` of argus/faucet/app.py does, on a World of the database and the payments that the
-- node made, also those after which the client raised an error; Faucet.Page has the challenge
-- route and what the page shows; Faucet.Housekeeping is argus/faucet/maintenance.py and
-- argus/faucet/reset.py.
--
-- Deploy.Network has the settings of a network (argus/config.py, argus/constants.py),
-- Deploy.Layout the blocks of ports of argus/constants.py, Deploy.Ports is argus/ports.py,
-- Deploy.Firewall the public rules of argus/firewall.py, Deploy.Validation the checks of a whole
-- configuration in argus/config.py with the tags of images in Deploy.Image, and Deploy.Reset the
-- estimates of argus/reset.py. Deploy.Sites is argus/shared.py without the texts of the
-- Caddyfile: the sites that it serves, with their public and backend ports. Deploy.Onion is
-- argus/tor.py: the routes of the onion service and what the torrc holds. Deploy.Script is the
-- whole script of argus/firewall.py. Deploy.Complete relates these to the ports that Deploy.Ports
-- gives out. Deploy.Secrets is argus/secrets.py: the file of a network as a text, its lines and
-- the dictionary that is read and written.
--
-- Web.Sampler is argus/web/sampler.py: a tick takes the readings of the containers and the host,
-- keeps the baselines of their counters and writes to the table of Web.History, which is
-- argus/web/history.py with each of its SQL statements as a function on the list of rows.
-- Web.Metrics has the attribution of container names and the readings of argus/web/metrics.py,
-- Web.Cache is argus/web/cache.py, and Web.Lnurl is argus/web/lnurl.py with its cache of
-- credentials. Web.Metrics.Collect is the live usage that argus/web/metrics.py collects.
-- Web.Inventory is argus/web/inventory.py: the rows of the services with their ports and links,
-- and the sections of the networks; the planned rows are data, which are then completed with
-- ports as the source's helper functions do. Web.Donations is the donation addresses of
-- argus/web/inventory.py with the reminder of argus/faucet/donations.py.
--
-- Claimer is argus/claimer_src/claim.py: targets, blocks and the search for a nonce;
-- Claimer.Turns has an attempt, the forwarding, the status and the loop as functions on a World
-- that records the blocks submitted and the sweeps made. The node, the wallet, the grinder and
-- the clock are the record System, with a state of their own. Claimer.Search says why a search
-- for a nonce ends. Claimer.Startup has the wait for the node, the wallet and its address. The
-- search has the 120 tries of the source, and the wait and the loop are functions of the number
-- of rounds.
--
-- In the faucet times are natural numbers of ticks of 2^-22 seconds (Faucet.Clock); in the
-- dashboard and the claimer they are whole seconds. Hashes, signatures, JSON and base64, the
-- decimal parser, IP addresses, the Lightning node and the mempool server are parameters of the
-- definitions, in the records Services, Codec and Request. Texts for the user are data, and the
-- text of an amount in BTC that is stored or shown is its satoshis. Two loops run on fuel that is
-- enough by construction: a conversion of bits takes at least one bit a round and has as many
-- rounds as bits, and a number has no more bytes than its value.
--
-- Not modelled: the web pages, their titles and recipes, the panel of channel liquidity, the
-- database engines and their files, threads and sleeps, the generated compose files and scripts,
-- the derivation of keys on elliptic curves, the signet miner and test framework, which are
-- copies of Bitcoin Core's, and all clients of other programs.
pub mod Common
pub mod Faucet
pub mod Deploy
pub mod Web
pub mod Claimer
mod Examples
