-- ===== src/Examples.antt =====
-- Tests, and the theorems at concrete inputs.
mod Orchestrators
mod Networks
mod Ingesters
mod Scores
mod Submissions
mod Leaderboards
mod Quotas
mod Disks
mod Machines
mod Hosts
mod Queues
mod Probers
mod Consumers
mod Services
mod Pipelines
mod Restarts
mod Pools
mod Startups
mod Platforms
mod Fleets
