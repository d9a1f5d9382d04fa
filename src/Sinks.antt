-- ===== src/Sinks.antt =====
-- internal/sink: the sinks that put results into a channel and work them off one at a time.
pub mod Buffer
pub mod FileSystem
pub mod KubernetesEvents
pub mod FluxNotifications
pub mod Reporting
