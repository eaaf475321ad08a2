-- ===== src/Tests.antt =====
-- Small concrete storages, and the theorems at them.
mod Kernels
mod Storages
mod Machines
mod OnHttp
mod OnServer
mod OnDentries
mod OnStorage
mod OnSessions
mod OnFormats
mod OnFiles
