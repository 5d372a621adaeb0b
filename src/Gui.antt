-- ===== src/Gui.antt =====
-- src/gui/views: the controller that runs a scan behind the window, and the models of its tables.
pub mod ScanController
pub mod ResultModel
pub mod Delegates
pub mod ChartsPanel
