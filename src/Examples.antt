-- ===== src/Examples.antt =====
-- Runs of the model on concrete inputs, and the theorems at such inputs.
mod Logs
mod Trees
mod Cluster
mod Requests
mod Disks
mod Clients
mod Stores
mod System
mod Handles
mod Collected
mod Starts
