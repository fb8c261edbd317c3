-- ===== src/Lib.antt =====
-- skill-sync-sidecar keeps the skills (directories of files) of several devices in step through a
-- central snapshot. This library models the decisions and the file operations of its runs; the
-- Python files named below stand in src/skill_sync_sidecar/.
--
-- A run downloads the central snapshot, compares for each skill the last applied version (base),
-- the local one and the remote one (sync_state.py), plans what it may do about the differences
-- (sync_plan.py), and, unless something needs a person, carries the plan out: pulled skills are
-- staged from their archives and checked (stage.py) and swapped into the local root with a backup
-- of what they replace (apply.py), and pushed ones are uploaded.
--
-- The files of this library:
--   Common and Common/*  what the code takes from Python: `==`, `in`, `or`, truth values, dicts in
--     insertion order (Common/Dict), `sorted(set(…))` (Common/Sorted), the counting dicts
--     (Common/Tally), `str` methods (Common/Text), and exceptions as a result type, one constructor
--     for each exception class (Common/Exceptions)
--   Skill  the JSON objects for one skill: an entry of index.json, `_hash`, the lifecycle state
--   SyncState  sync_state.py: `_classify_skill`; SyncState/Entries the dicts by skill id and their
--     refusal of duplicates; SyncState/Overrides the local override file and
--     `_classify_skill_with_override`; SyncState/Status `build_sync_status`
--   SyncPlan  sync_plan.py: `_plan_item`, `_apply_writer_policy`, `build_sync_plan`
--   Stage  stage.py: `stage_skill`, `validate_staged_files`, `stage_snapshot`
--   Apply  apply.py: `_apply_item`, `execute_apply_plan`, `rollback_apply_record`
--   Remote  remote.py: `upload_snapshot` over a connection that may break at any write; Remote/Loop
--     the turns of its loop
--   SyncApply  sync_apply.py: `build_sync_apply_preview`; SyncApply/Execute `execute_sync_apply`,
--     with the local disk, the remote and the base records as its state (`World`)
--   SyncCycle  sync_cycle.py: `run_sync_cycle`, with `download_snapshot` of remote.py and the
--     choice of items of tombstones.py
--   Daemon  daemon.py: `run_sync_daemon` over a `Host` that runs the cycles
--   CentralLifecycle  central_lifecycle.py: deprecating and reactivating skills of the index
--   Diff, BaseAdoption, BlockedReport  diff.py, base_adoption.py and blocked_report.py
--   Fanout  fanout.py: entries of a tool's directory and their hashes; Fanout/Items tools, skills
--     and items of a plan; Fanout/Tools the configured tools; Fanout/Plan `_plan_entry` and
--     `_removals`; Fanout/Execute `_execute_item`; Fanout/Rollback and Fanout/Run `run_fanout` and
--     `rollback_fanout` over all tools; Fanout/Scheduler `FanoutScheduler`; Fanout/Retention the
--     pruning of backups
--   ApprovedPush  approved_push.py: the approval of an item; ApprovedPush/Merge
--     `_build_merged_snapshot`; ApprovedPush/Execute the preview and the push
--   Reconcile  reconcile.py: `build_reconcile_report`; Reconcile/Gate openclaw_gate.py
--   Tests/*  the theorems at concrete inputs, and runs
--
-- State and failure. A function that may raise returns `Result`; one that has already written when
-- it raises returns its exception beside the state it leaves. How an operation ends is a parameter of
-- the model: it works, or it raises and leaves something (`Attempt`). The disk of apply.py is a
-- function from paths to directory contents; `Weather` says how the copies, the removal and the
-- rename of an item and of its recovery end, and `Undoing` those of a rollback. A write to the remote
-- may break and leave anything at its path (`Upload`), and so may the writes of the cached index and
-- of the records of an approved push. In fanout.py a tool's directory is a function from names to
-- entries; `Luck` says how the operations of an item and of its recovery end, and `Around` whether
-- ledgers can be saved and the run's record be written. Each theorem names the operations that it
-- needs to work.
--
-- Numbers are natural numbers; the counters of the code cannot go below zero. Loops run over lists;
-- the daemon's runs on fuel, for which as many turns as cycles are left, and one more, are enough.
-- The daemon without `max_cycles` need not end, and there is no theorem that it does.
--
-- Parameters, for what is not the program's own code: SHA-256 and the digest of a file list
-- (`Hashing`), zip archives (their members, read), the file system, what the overrides file holds
-- for an equivalent projection (`Projections`), the scan of the local root (`Device`), what the
-- daemon calls (`Host`), the resolution of links and what stands outside a tool's directory
-- (`Disk`, `Around`), and the files that an inventory and an archive list (`Files`).
--
-- Not modelled: the text layer (JSON, argument parsing, reports for people), timestamps, paths
-- copied into results, file modes, the WebDAV client, the dashboard and its web pages, conflict
-- packages, restore and projection, the executor of queued operator requests, the importers from
-- other tools, and the scanner that reads skill directories from the disk. These are taken to work:
-- making directories, writing the records of apply.py, the requests of an upload that only ask for a
-- file, writing the files of a download's cache, the base record of a sync-apply run, and the file
-- operations of a fan-out's rollback.
pub mod Common
pub mod Skill
pub mod SyncState
pub mod SyncPlan
pub mod Stage
pub mod Apply
pub mod Remote
pub mod SyncApply
pub mod SyncCycle
pub mod Daemon
pub mod CentralLifecycle
pub mod Diff
pub mod Fanout
pub mod ApprovedPush
pub mod Reconcile
pub mod BlockedReport
pub mod BaseAdoption
mod Tests
