-- ===== src/Tests.antt =====
-- Runs of the modelled code at concrete inputs, and the theorems applied at such inputs.
mod Open
mod KvRuns
mod SessionRuns
mod LoginRuns
mod UnlockRuns
mod JobRuns
mod SchedulerRuns
mod NetsecRuns
mod LabelRuns
mod SpamRuns
mod PushRuns
mod ImapRuns
mod RegistryText
mod UploadRuns
mod FolderRuns
mod MboxRuns
mod SyncRuns
