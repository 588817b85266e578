-- ===== src/Lib.antt =====
-- The controller and node services of the CSI drivers for Huawei Cloud: what their calls send to the cloud
-- and do on the host, what they answer, and with which errors.
--
-- The program is a set of CSI plugins (cmd/*) over the packages in pkg: `pkg/evs` for block volumes,
-- `pkg/sfsturbo`, `pkg/sfs` and `pkg/obs` for shared file systems and buckets, with `pkg/config` for the
-- clients of the cloud, `pkg/common` for polling, topology and errors, and `pkg/utils`. A call of the
-- container orchestrator reaches a method of a controller or node server. It checks its request, and calls
-- the services of its package, which fetch a client, send a request of the SDK (vendor/github.com/chnsz/
-- golangsdk), and where the request starts a job, poll until the job is done. The drivers keep nothing
-- between calls but their credentials, and on a node the metadata of the instance: the state is the cloud's and
-- the host's.
--
-- Effect: a Go function that calls the cloud is a function from the state of the world to a result and the
-- next state (M), also where it returns an error. Effect/Keeps has the predicates on the world that a
-- function keeps, Effect/Raises the errors that it can return, Effect/Returns what it did when it returned
-- a value. Status has the errors: the gRPC status codes, the SDK's 404, and `IsNotFound` of
-- pkg/common/common.go. A message is the text of the errors that it wraps; its fixed words are left out,
-- since the code reads no message but for "Ecs.0111" in the error of a request. The calls that
-- write to the log are left out.
--
-- Common: pkg/common/common.go. The polling of k8s.io/apimachinery is a parameter (Timer), and IsTimer has
-- what its documentation says: at most `steps` polls, each after a new delay, ended by the first that
-- is done or fails. The code waits for thirty polls, and for fifteen where it searches for a device.
-- Config: pkg/config/cloud.go, the catalog and the clients; the secret keys and the authentication
-- (openstack.Authenticate) are left out. Config/Access has the `get…Client` functions of the services.
-- Utils: RoundUpSize of pkg/utils/utils.go, sizes in bytes with the wrap-around of an int64, and the
-- decimal numbers of strconv (Atoi, Itoa) that parameters and tokens are read and written with; Utils/Upper
-- has strings.ToUpper on the letters a-z, Utils/Text the functions of strings and filepath on texts of ASCII
-- characters (Utils/Suffix has the lemmas on a suffix), and Utils/Endpoint has ParseEndpoint.
-- Utils/Logs has the masking of secrets in the logs of pkg/utils/logroundtripper.go.
-- Csi: the messages, with the fields that the drivers use; Csi/Node has those of the node service.
--
-- Evs: pkg/evs. Evs/Sdk is the cloud as an interface (Cloud): a type of states and one function for each SDK
-- call, of which nothing is assumed. Evs/Services has services/volumes.go, computes.go and snapshots.go, one
-- definition for each function and each polled closure; Evs/Driver has driver.go; Evs/Controller has
-- controllerserver.go: Create (CreateVolume), Publish (ControllerPublishVolume, ControllerUnpublishVolume),
-- Volumes (delete, get, list, expand, validate), Snapshots (create, delete, list).
-- SfsTurbo: pkg/sfsturbo, in the same form. Sizes of shares are texts that the code reads with ParseFloat:
-- float64 with the three operations used is part of the interface (Float64).
-- Sfs: pkg/sfs: driver.go and config/cloud.go in Sfs/Driver, share.go in Sfs/Shares, controllerserver.go in
-- Sfs/Controller. It polls with the SDK's WaitFor, a parameter (Waiter) that calls the polled function only,
-- and returns without an error only right after the function said that it is done (IsWaiter).
--
-- Obs: pkg/obs. Obs/Services has services/buckets.go and services/objects.go, Obs/Controller has
-- controllerserver.go. The loop that deletes all objects has no bound in the code; its model takes a number of
-- rounds, and one more than there are thousands of objects is enough (Obs/Services/Deletion). The goroutines
-- of ListBuckets are run one after another, in the order in which they are started.
--
-- A property of the form `…-Keeps` takes a predicate on the states that the queries of a call keep (QueriesKeep,
-- SharesKeep, SearchesKeep), and says that a call keeps it if the requests that it may send keep it. Lists that the
-- code loops over are recursions on the list; other fuel is in Snapshots/Paging and Obs/Controller/Paging
-- alone, where a client follows one page more than there are things to list, enough for any page size.
--
-- Node: what the node servers use of the host. Node/Host is the host as an interface, on the same states as
-- the cloud: the system calls, commands, HTTP requests and calls of k8s.io/mount-utils, of which nothing is
-- assumed. Node/Mounts has pkg/utils/mounts/mount.go, Node/BlockDevice blockdevice_linux.go, Node/Metadatas
-- pkg/utils/metadatas/metadata.go with the cache of the process, Node/Shell the commands of
-- pkg/sfs/utils.go and its copy in pkg/sfsturbo. A slice out of range is the error `panic`, which the callers
-- pass on as it is. Evs/Node, SfsTurbo/Node and Sfs/Node have the three files nodeserver.go; IMount and IMetadata
-- are records that the servers take and that mount_provider and metadata_service fill.
--
-- Obs/Node has pkg/obs/nodeserver.go, which mounts through a process on the host: it sends a command with a token
-- (Obs/Command, pkg/obs/mount.go) over a socket to the server of cluster/images/obs-csi-plugin (Obs/Connector),
-- which checks the token and runs the command. Utils/Aes and Utils/Sha256 have pkg/utils/aes.go and sha256.go,
-- with the block cipher, base64, the random bytes and the hash as parameters; IsLibrary has what the packages of
-- Go document of them. JSON, the socket and the files with the keys are the interface Channel.
--
-- Not modelled: the identity servers, the gRPC servers and the mains; the mounting of
-- a config drive, the rescan of block devices, BytesToGB; the sending of logged requests;
-- deployment files and end-to-end tests; vendored code.
pub mod Prelude
pub mod Status
pub mod Effect
pub mod Utils
pub mod Csi
pub mod Common
pub mod Config
pub mod Node
pub mod Evs
pub mod SfsTurbo
pub mod Sfs
pub mod Obs
