-- ===== src/Lib.antt =====
-- Verification library of kubedock, a docker API that runs containers as pods of a kubernetes
-- cluster. A client calls the API (internal/server); its handlers keep records of containers,
-- networks, images and execs in an in-memory database (internal/model) and ask a backend
-- (internal/backend) to create and delete pods; small utilities (internal/util) make ids and frame
-- log output. Each module is one part:
--
-- Base: lists, Go maps, texts as lists of bytes, int64 numbers, results.
-- Util.StringId: internal/util/stringid/stringid.go. The random source is a parameter;
--   GenerateRandomID runs on fuel, and a round that draws an id that is not numeric ends it.
-- Util.IoProxy: internal/util/ioproxy/ioproxy.go, function by function (`create` is New, `send` is
--   write, `write` is Write, `drain` its loop). The writer below it is a parameter. The loops run on
--   fuel: the length of what is to be written is enough over a writer that takes every byte. The
--   timer of Write is a flag in its result and a later call of `flush`.
-- Util.Tar: internal/util/tar. ConcatReader, the detection of the compression and NewReader up to
--   the decompressors are in Tar, over a reader that is a parameter; the functions that go through
--   an archive are in Entries, where an archive is the list of headers that archive/tar makes of it.
-- Util.Md2Text: internal/util/md2text/md2text.go over ASCII lines. A panic of a table is no result.
-- Model.Container: internal/model/types/container.go. The record has the fields of Container; a map
--   is an association list, in the order in which `range` visits it; a channel is a number. The
--   getters of pod settings are in Settings, GetPodName in PodName, the ports in Ports, the volumes
--   in Volumes, Match in Match, GetPreArchiveFiles in PreArchives. Quantities and regular expressions
--   over names are parameters.
-- Model.Records: internal/model/types/network.go, exec.go and image.go.
-- Model.Database: internal/model/database.go over the tables of go-memdb, which Tables states by the
--   laws that the code relies on, and Indexes fulfils. The tables hold pointers, so that a handler
--   changes a record before it saves it: `poke` is what the table shows then. A fresh id and the
--   time are arguments.
-- Backend.Interface: the interface of internal/backend/main.go over an abstract state of the
--   cluster; its laws say which fields of a container the operations leave alone.
-- Backend.Names: internal/backend/util.go, the texts for labels and names; kubernetes's rule for the
--   keys of labels is in Keys.
-- Backend.Delete: internal/backend/delete.go over the list and delete calls of the kubernetes client,
--   which are a parameter with its documented laws: a delete is graceful, so that what was deleted may
--   stay in the lists as an object that is being deleted.
-- Backend.Deploy: of internal/backend/deploy.go the labels and annotations, GetContainerStatus and
--   waitReadyState, whose limit is the number of its rounds; a pod is what the client returns.
-- Backend.Services: getServices, createServices and getContainerPorts of the same file.
-- Backend.HostPorts: MapContainerTCPPorts of internal/backend/util.go, and the loop of portForward.
-- Backend.Logs: internal/backend/logs.go over what the loop of getLogs meets: reads, the message on
--   the stop channel, and the timer of the proxy.
-- Backend.Pod: the pod that startContainer makes: Steps has addVolumes, addPreArchives,
--   addDindSidecar and what they call, Build the rest up to the create of the pod. The file system,
--   the md5 sum and the parsing of quantities are parameters; the panic of GetVolumes is an outcome.
-- Backend.Start: StartContainer and startContainer (`start_steps`, whose last parts are the functions
--   with names in _end) over the calls of the kubernetes client. A pod is looked at by a number, which
--   counts the looks while nothing is written; a wait has as many rounds as its limit. Served gives the
--   record of Backend.Interface whose StartContainer, CreatePortForwards and CreateReverseProxies are
--   these, and that its laws hold of them.
-- Backend.Remote: internal/backend/copy.go and ExecContainer of internal/backend/exec.go over the
--   executor of the kubernetes client, with RemoteCmd of internal/util/exec/exec.go.
-- Server.Filter: internal/server/filter/filter.go; encoding/json is a parameter.
-- Server.World: the state of the handlers, with StartContainer and UpdateContainerStatus of
--   internal/server/routes/common/util.go. What the rate limiter allows is an argument.
-- Server.Containers: the handlers of internal/server/routes/common/containers.go, ContainerDelete and
--   ContainerWait, over the answers of the rate limiter, of internal/server/routes/docker/containers.go. A handler takes the
--   state and returns the status and the new state, or that it hangs. A handler runs as one step:
--   interleavings inside a handler are not modelled.
-- Server.Create: ContainerCreate and getContainerCreateRequest of
--   internal/server/routes/docker/containers.go. A request that was read is a record; the fuel of the
--   decimal digits is more than their number.
-- Server.Execs: internal/server/routes/common/exec.go. The goroutine of a detached start is a job
--   that runs when it does.
-- Server.Archive: internal/server/routes/common/archive.go. What archive/tar makes of an archive is a
--   parameter.
-- Server.Images: images.go in common, docker and libpod of internal/server/routes. The inspection of
--   a registry is a parameter.
-- Server.Logs: internal/server/routes/common/logs.go.
-- Server.VersionAlias: VersionAliasMiddleware of internal/server/httputil/util.go. A regular
--   expression is a matcher that tries like Go's; the calls of the middleware by itself run on fuel,
--   of which one more than the path has bytes is enough, if any is.
-- Server.Libpod: internal/server/routes/libpod/containers.go; ContainerCreate is in Create,
--   ContainerInfo and ContainerList are in Inspect, the functions on ports in Ports.
-- Server.Ports: the functions on ports and getContainerNames of
--   internal/server/routes/docker/containers.go.
-- Server.Inspect: ContainerInfo and ContainerList of internal/server/routes/docker/containers.go. Of
--   the JSON the constants are left out, and times are not formatted.
-- Events: internal/events, the subscribers and their channels.
-- Reaper: internal/reaper, a round of clean. The time is an argument; times are seconds.
-- Server.Networks: internal/server/routes/docker/networks.go and util.go beside it; NetworksInfo and
--   NetworksList are in Inspect. An answer is its status, and what is shown without constants.
--
-- Not modelled: the command line and configuration, the kubernetes client, attaching, what
-- port forwards and reverse proxies do, the HTTP framework, the timer of the reaper, letters beyond
-- ASCII where a text is made lower case (of these Go maps U+212A and U+0130 to ASCII letters), and
-- that GetResourceRequirements writes into the maps of the pod template, where it has them.
pub mod Base
pub mod Util
pub mod Model
pub mod Backend
pub mod Server
pub mod Reaper
pub mod Events
