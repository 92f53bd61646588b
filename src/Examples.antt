-- ===== src/Examples.antt =====
-- examples/: the programs that come with the library.
pub mod Client
pub mod HelloWorld
pub mod Servers
pub mod TimeCounter
