-- ===== src/Cli.antt =====
-- cli/src: the command line tool that writes the configuration of a federation.
pub mod Shell
pub mod Files
pub mod Substrate
pub mod Services
pub mod Wireguard
pub mod Archipel
pub mod Generate
pub mod Init
pub mod Command
