-- ===== src/Tests.antt =====
-- The theorems at concrete inputs, and runs of the definitions.
mod SyncStateTests
mod ApplyTests
mod StageTests
mod RemoteTests
mod SyncApplyTests
mod DaemonTests
mod LifecycleTests
mod ReportTests
mod FanoutTests
mod ApprovedPushTests
mod ReconcileTests
mod SchedulerTests
