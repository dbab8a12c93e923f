-- ===== src/Task.antt =====
-- app/tasks: what a task takes from a webhook, the files that it reads, and the tasks themselves.
pub mod Fields
pub mod Collect
pub mod Stages
pub mod Webhook
pub mod Writing
pub mod Shadow
pub mod Preview
pub mod Heal
pub mod Cli
pub mod CliWriting
pub mod Choosing
