-- ===== src/Lib.antt =====
-- The edge runtime of baetyl: its engine, the shadow of its node, its synchronisation, its
-- certificates, its debug sessions and its probes.
--
-- Keys: utils/parse.go, MakeKey. Engine.Reconcile: engine/engine.go, Collect and reportAndApply,
-- the round that ties the others together. Engine.Plan, Filter and Align: engine/engine.go and
-- engine/utils.go, the applications to remove and to apply. Engine.Collide: engine/utils.go, the
-- applications that collide on a service or on a port. Engine.Apply: engine/engine.go, applyApps,
-- applyApp and injectCert. Engine.Clean: engine/clean.go and recycleIfNeed, the objects that are
-- removed. Engine.Downside: engine/msg_handler.go, the commands of the cloud. Engine.Logs:
-- engine/engine.go, GetServiceLog. Native: ami/native/native.go, the applications that run as
-- processes of the system. Chain: chain/, a session that debugs a process or views its logs.
-- Security: security/pki.go. Node: node/node.go, the document in the bolt bucket. Sync.Desire and
-- Sync.Object: sync/desire.go and sync/object.go, the resources fetched from the cloud, stored in
-- tables and on the disk; Sync.Shadow: sync/sync.go, the messages of the cloud and the report to
-- it; Sync.Prepare: sync/app.go. Prober: ami/native/prober, the probes, the workers and their
-- manager. Message has the messages and the bus, Base the helpers, Spec the shared data types of
-- baetyl-go, Tests the runs and the theorems at concrete inputs.
--
-- Sync writes the desire of the cloud into the node's document. The engine collects what runs,
-- reports it to the node, plans by the difference that the node tells, has sync fetch and store
-- what it applies, takes certificates from security and hands the applications to the platform. The
-- commands of the cloud open and close chains, whose messages go over the same bus. State is passed
-- explicitly, errors are values, and each `range` over a map takes its order as a parameter. Bolt,
-- JSON, HTTP, archives, x509, the bus's own errors and the network are parameters. The goroutines
-- of applyApps are modelled as one after the other, in any order. Each certificate that is issued
-- takes a number of its own for its fresh key pair. No fuel is used: loops are over lists, and the
-- retries of a probe count down from three.
--
-- Not modelled: Kubernetes, what is particular to Windows, the facts of the machine, the bytes that
-- a remote session reads and writes, timers, start-up and the command line.
pub mod Base
pub mod Spec
pub mod Keys
pub mod Message
pub mod Chain
pub mod Security
pub mod Native
pub mod Engine
pub mod Node
pub mod Prober
pub mod Sync
pub mod Tests
