-- ===== src/Connection.antt =====
-- connection.py: the installation of the schema, and the teardown of a connection.
pub mod Statements
pub mod Schema
pub mod Opening
pub mod Reported
pub mod Live
pub mod Sockets
pub mod Owner
pub mod Owning
pub mod Applying
pub mod Versions
pub mod Install
