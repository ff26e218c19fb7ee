-- ===== src/Lib.antt =====
-- garm-provider-truenas: an external provider of GARM that runs one-job runners on TrueNAS.
--
-- GARM runs the command `cmd/garm-provider-truenas` with a request in its environment. The
-- command checks its configuration and the request, opens a backend, hands the request to a
-- manager and translates the error. Three managers keep runners as TrueNAS apps, system
-- containers or virtual machines; each asks a client, which is the TrueNAS middleware or a file,
-- and decides from what it is told. The managers keep no state of their own.
--
--   Base                helpers: results and errors as values, texts as lists of code points,
--                       association lists, integers, JSON values, slash-separated paths
--   Provider            internal/provider/provider.go: data model and client; Provider.Names is
--                       `sanitize` and `ownedName`, Provider.Manager is `Manager`,
--                       Provider.Contract states what the manager relies on of a client, which
--                       Mockstore and Appstore.Store implement
--   Mockstore           internal/mockstore/mockstore.go: the client that is a file
--   Catalog             internal/truenasstore/runtime_backend_catalog.go: which driver serves which
--                       TrueNAS version
--   Appstore            internal/truenasstore/store.go: the Compose document, the listed names and the
--                       states of an app; Appstore.Reading is how a configuration is read,
--                       Appstore.Decode is `decodeApp` and its checks, Appstore.Gateway is
--                       host_gateway.go, Appstore.Store is `Store` and `Connect`
--   Ownership, Kit      what the VM and container managers share: the JSON record of an owner, and
--                       the digest, the JSON library and the scripts as parameters
--   Script              the shell programs that the provider hands to its runners: Script.Shell is
--                       commands and `set -e`, Script.Settings, Script.Steps and Script.Bootstrap
--                       are the script of internal/truenasstore/bootstrap.go with its settings, its
--                       functions and its course, Script.Words is what it does to texts,
--                       Script.Launcher is `vmBootstrapLauncher` of internal/vmbackend/manager.go,
--                       Script.Init is `containerInitWrapper` of internal/containerbackend/bootstrap.go;
--                       Script.Runs is how programs run, and the other modules are about the script
--   Vm                  internal/vmbackend/manager.go: data model and client; Vm.Seed is names, the
--                       bootstrap check and the NoCloud seed, Vm.Manager is `Manager`, in four parts
--   Container           internal/containerbackend: data model and client; Container.Plan is names
--                       and bootstrap.go, Container.Manager is `Manager`, in four parts
--   Command             cmd/garm-provider-truenas: Command.Settings is `validateConfig`,
--                       Command.Reading is `loadConfig`,
--                       Command.Contract is `validateBootstrapContract`, Command.RunnerTool is
--                       runner_tool.go, Command.External is `externalProvider`,
--                       Command.Linked is the same over the TrueNAS app store,
--                       Command.Environment is scaleset_lifecycle_env.go, Command.Main is main.go
--   Tests               runs on concrete inputs, and the theorems at concrete data
--
-- A Go method is a function into `Run S A`, which takes the state of the outside and returns a
-- value or an error beside the state that is left. A client is a record of such functions over
-- an unknown state S, so the managers are modelled against every middleware. The properties of
-- what a manager calls stand on a client that also writes down each call with its answer (the
-- Trace modules), and a predicate on that log says which calls are warranted by the ones before.
--
-- A shell program is a tree: it asks for a command, goes on with the answer, and ends with a value,
-- an exit status or the trap of a signal. What answers is any function of the commands so far, and an
-- answer may be that a signal came. The managers take the texts of the scripts as parameters, and the
-- programs of Script are what these texts do. A `while` loop with attempts is a recursion on the
-- attempts that are left. How `[` reads a number and the status of a failed `${x:?}` differ between
-- shells and are parameters; the files of the launcher hold no NUL; a second signal while a trap runs
-- is not followed further, and the trap of a signal that comes right after the start of the runner,
-- before its process ID is stored, finds none, as in the script.
--
-- Errors keep their chain of wrapped sentinels and the format of their messages, and leave out
-- the values that are formatted in. Strings are lists of code points; the case mappings cover
-- ASCII and the code points beyond it that Go maps to an ASCII letter. `json.Marshal` and
-- `json.Unmarshal` are a parameter, with their round trip as the one hypothesis where it is
-- needed, and so are SHA-256, with its length as a hypothesis and, where names must differ, that
-- the digests at hand differ or, for a marker, that they consist of bytes, `url.Parse`, and the value of a JSON number that is an integer. Where
-- the app store is shown to be a map, TrueNAS is taken to keep each custom app under its name with
-- the document it was sent (`Keeps` of Appstore.Store.Refine). Every other loop runs over a list,
-- so there is no fuel. Contexts and
-- cancellation are left out, since the managers only pass them on. A failed write of the mock
-- store's successor file leaves that file as it was, which nothing reads.
--
-- Not modelled: the middleware and the clients of truenas-go, which are parameters here; the
-- commands that the shell scripts call; how cloud-init reads the seed; the library of providers, which main.go calls and which is a parameter.
mod Base
pub mod Provider
pub mod Mockstore
pub mod Catalog
pub mod Appstore
pub mod Ownership
pub mod Kit
pub mod Script
pub mod Vm
pub mod Container
pub mod Command
mod Tests
