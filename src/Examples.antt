-- ===== src/Examples.antt =====
-- The theorems of the components at concrete inputs, and runs of their definitions.
mod Workers
mod Routers
mod Streams
mod Boot
mod Pools
mod Php
mod Values
mod Calls
mod Hosts
mod Reloads
mod Metrics
