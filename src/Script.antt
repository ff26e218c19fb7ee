-- ===== src/Script.antt =====
-- The shell programs that the provider hands to its runners, as programs over the commands that they
-- call: `containerBootstrapScript` of internal/truenasstore/bootstrap.go, `vmBootstrapLauncher` of
-- internal/vmbackend/manager.go and `containerInitWrapper` of internal/containerbackend/bootstrap.go.
pub mod Shell
pub mod Words
pub mod Settings
pub mod Steps
pub mod Bootstrap
pub mod Runs
pub mod Verified
pub mod Traps
pub mod Secrecy
pub mod Launcher
pub mod Init
pub mod Bounds
pub mod Success
