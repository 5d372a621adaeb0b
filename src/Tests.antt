-- ===== src/Tests.antt =====
-- The code and its theorems on concrete inputs.
mod Documents
mod FpTests
mod TableTests
mod NetTests
mod ScanTests
mod CliTests
mod ReportTests
mod ProbesTests
mod ProgramTests
mod GuiTests
