-- ===== src/Lib.antt =====
-- LNST, the Linux Network Stack Test: the controller maps the hosts that a recipe asks for to
-- machines of its pools, talks to the agents on these machines over connections, and judges the
-- results; an agent tracks the network devices of its machine and tells the controller of them.
--
-- Prelude: what the modules share. Lists and dictionaries stand for Python's, in their order, over
--   the native numbers; Prelude/Exc has the exceptions, and a result for code that may raise.
-- Mapper: lnst/Controller/MachineMapper.py. Mapper/Defs is the state of MachineMapper;
--   Mapper/Compat the two compatibility checks; Mapper/IfSearch is `_if_match`, a step and a loop;
--   Mapper/Search is `reset_match_state` and `_match`, likewise; Mapper/Mapping is `get_mapping` and
--   the generator `matches`, which gives the list of what it yields and the exception it ends with.
--   The loops are on fuel. Mapper/IfValid and Mapper/Valid have their invariants and a measure that
--   each round lowers, so that the fuel of `search_cost` is enough; Mapper/Sound and Mapper/Matches
--   say what a match is and that the search gives matches.
-- Connections: lnst/Common/ConnectionHandler.py. What `select` and the sockets answer is an
--   argument of the definitions in Connections/Poll, with the exceptions that are not caught.
-- Interfaces: lnst/Agent/InterfaceManager.py, `_init_netlink` and `_update_netlink` of
--   lnst/Devices/Device.py, and the equality of lnst/Common/IpAddress.py. A netlink message is what
--   pyroute2 decodes. What each reading of the socket will give, and what is sent to the controller,
--   is kept in the state, which an exception leaves as it is. The loop over the queue, which reading
--   a device's master enters again, is on fuel, a round for each message.
-- Evaluation: ResultType of lnst/Controller/RecipeResults.py, RecipeRun.overall_result of
--   lnst/Controller/Recipe.py, and the evaluators of lnst/RecipeCommon/Perf/Evaluators and
--   lnst/RecipeCommon/Ping/Evaluators. Floating point operations are arguments, and the texts of
--   the reports are left out.
-- Jobs: lnst/Controller/Job.py, and run_job, wait_for_job, job_finished and kill of
--   lnst/Controller/Machine.py, whose remote calls are arguments.
-- PerfList: the class of that name in lnst/RecipeCommon/Perf/Results.py, for any type of items.
-- Containers: ContainerMapper of lnst/Controller/MachineMapper.py, with what its pool manager gives
--   as arguments.
-- Database: the tables of devices that lnst/Controller/Machine.py keeps for each namespace of its
--   agent, by the objects of lnst/Devices/RemoteDevice.py. The objects are a function from their
--   numbers, since the tables share them. Database/Replay joins it to the agent of Interfaces.
-- Dispatcher: lnst/Controller/MessageDispatcher.py, which is a handler of Connections and changes
--   the machines of Database and Jobs. The rounds of check_connections are a list.
-- Pools: lnst/Controller/AgentPoolManager.py with lnst/Controller/AgentMachineParser.py, from the
--   tags that lxml gives to the pools that Mapper takes. The network is an argument.
-- Config: lnst/Common/Config.py. Config/Parser reads the lines of a file; Config has the options
--   and what the lines do to them, for any type of values. Files are of ASCII.
-- Recipes: BaseRecipe.__init__ of lnst/Controller/Recipe.py, lnst/Controller/Requirements.py, and
--   the parameters of lnst/Common/Parameters.py, for any type of values. It gives Mapper its hosts.
-- SecureSocket: the records of lnst/Common/SecureSocket.py. `recv` is on fuel, a round for each
--   record that returns no message; reading a record has a round for each of its bytes.
-- Utils: wait_for_condition of lnst/Common/Utils.py, on fuel, a round for each attempt.
--
-- Not modelled: the sockets' cryptography and handshakes, XML files, containers and virtual machines,
-- device attributes over netlink, ethtool and shell commands, test modules that wrap tools, and
-- logging.
pub mod Config
pub mod Connections
pub mod Containers
pub mod Database
pub mod Dispatcher
pub mod Evaluation
pub mod Interfaces
pub mod Jobs
pub mod Mapper
pub mod PerfList
pub mod Pools
pub mod Prelude
pub mod Recipes
pub mod SecureSocket
pub mod Utils
