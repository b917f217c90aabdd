-- ===== src/Cluster.antt =====
-- engine/internal/cluster: membership, heartbeats and the election of a master (cluster.go,
-- cluster_http.go, cluster_discovery.go). Peers are a list with one entry for each address and
-- port, Go's map of peers in some order of iteration. Methods run one at a time. Times are
-- nanoseconds, given by the caller. Pings are answered by an argument.
mod Model
mod Heartbeat
pub mod Quorum
pub mod Fencing
pub mod Polling
pub mod Failover
unfoldable pub use Model.*
unfoldable pub use Heartbeat.*
pub mod CertSync
