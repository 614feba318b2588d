-- ===== src/Examples.antt =====
-- Tests, and each theorem at an input that meets its conditions.
mod Fixtures
mod Registrations
mod Recoveries
mod Calls
mod Daemons
mod Growth
mod Storing
mod Runs
mod Rounds
mod Connections
mod Acknowledgements
mod Fetches
mod Exchanges
mod Volumes
mod Images
mod Preparations
