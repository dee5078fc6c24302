-- ===== src/Tests.antt =====
-- Runs of the modelled code on concrete inputs, and the theorems at them.
mod MuxRuns
mod UsbRuns
mod ConfigRuns
mod ManagerRuns
mod ServiceRuns
mod ListenRuns
mod PairingRuns
mod DeviceRuns
