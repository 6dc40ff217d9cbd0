-- ===== src/Examples.antt =====
-- The theorems at concrete inputs, and runs of the model on inputs that can be followed in the source.
mod Wire
mod FapMessages
mod DcpMessages
mod DirectoryServer
mod DirectoryRuns
mod FileServer
mod ConfigFile
mod Mutex
mod Memory
mod Sessions
mod Prompt
mod Transfers
