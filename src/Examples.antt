-- ===== src/Examples.antt =====
-- The theorems at concrete inputs, over the model packages.
mod Values
mod Run
mod Fields
mod Keys
mod Requests
mod Sessions
mod Files
mod Hosts
mod Threads
mod Processes
mod Starts
mod Pipes
mod Dialogs
mod Desktops
mod Icons
mod Calls
mod Handles
